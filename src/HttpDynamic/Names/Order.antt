-- ===== src/HttpDynamic/Names/Order.antt =====
-- Names in their order: what is before, below and a prefix of what.
use nginx_toolkit_module.Base.{◌≡◌, refl, true, false, [], ◌∷◌, arith}
use nginx_toolkit_module.Text.{Bytes}
use nginx_toolkit_module.HttpDynamic.Names.{
  below, inside, rel, is_same, is_before, is_after, is_prefix,
}
use nginx_toolkit_module.HttpDynamic.Names.{FileNames}

module _ ⦃f : FileNames⦄ where
  -- nothing from `x` on is a prefix of a text before `x`
  pub after-not_prefix :
      (u x y : Bytes)
      → is_before (rel u x) ≡ true
      → is_after (rel x y) ≡ false
      → is_prefix (rel y u) ≡ false
  after-not_prefix [] [] y h k = cc
  after-not_prefix [] (x ∷ xs) [] h k = cc
  after-not_prefix [] (x ∷ xs) (y ∷ ys) h k = refl
  after-not_prefix (u ∷ us) [] y h k = cc
  after-not_prefix (u ∷ us) (x ∷ xs) [] h k = cc
  after-not_prefix (u ∷ us) (x ∷ xs) (y ∷ ys) h k = ground (arith, after-not_prefix us xs ys)

  -- what is below `x` is no prefix of `x` or a text behind it
  pub below-not_prefix :
      (y x u : Bytes) → rel y x ≡ below → is_after (rel x u) ≡ false → is_prefix (rel y u) ≡ false
  below-not_prefix [] [] u h k = cc
  below-not_prefix [] (x ∷ xs) u h k = cc
  below-not_prefix (y ∷ ys) [] u h k = cc
  below-not_prefix (y ∷ ys) (x ∷ xs) [] h k = refl
  below-not_prefix (y ∷ ys) (x ∷ xs) (u ∷ us) h k = ground (arith, below-not_prefix ys xs us)

  -- a text before `x` is not `x` nor a text behind it
  pub before-not_same :
      (y x u : Bytes)
      → is_before (rel y x) ≡ true
      → is_after (rel x u) ≡ false
      → is_same (rel y u) ≡ false
  before-not_same [] [] u h k = cc
  before-not_same [] (x ∷ xs) [] h k = cc
  before-not_same [] (x ∷ xs) (u ∷ us) h k = refl
  before-not_same (y ∷ ys) [] u h k = cc
  before-not_same (y ∷ ys) (x ∷ xs) [] h k = refl
  before-not_same (y ∷ ys) (x ∷ xs) (u ∷ us) h k = ground (arith, before-not_same ys xs us)

  -- of two texts that `x` does not begin alike, only one begins with `x`
  pub apart-not_prefix :
      (x y u : Bytes) → rel x y ≡ below → is_prefix (rel x u) ≡ true → is_prefix (rel y u) ≡ false
  apart-not_prefix [] [] u h k = cc
  apart-not_prefix [] (y ∷ ys) u h k = cc
  apart-not_prefix (x ∷ xs) [] u h k = cc
  apart-not_prefix (x ∷ xs) (y ∷ ys) [] h k = refl
  apart-not_prefix (x ∷ xs) (y ∷ ys) (u ∷ us) h k = ground (arith, apart-not_prefix xs ys us)

  -- what goes on behind `x` is no prefix of a text that `x` is no prefix of
  pub child-not_prefix :
      (x y u : Bytes)
      → is_prefix (rel x y) ≡ true
      → is_prefix (rel x u) ≡ false
      → is_prefix (rel y u) ≡ false
  child-not_prefix [] y [] h k = cc
  child-not_prefix [] y (u ∷ us) h k = cc
  child-not_prefix (x ∷ xs) [] u h k = cc
  child-not_prefix (x ∷ xs) (y ∷ ys) [] h k = refl
  child-not_prefix (x ∷ xs) (y ∷ ys) (u ∷ us) h k = ground (arith, child-not_prefix xs ys us)

  -- what begins with a text below `z` is below `z`
  pub child-below : (w y z : Bytes) → rel w z ≡ below → is_prefix (rel w y) ≡ true → rel y z ≡ below
  child-below [] y [] h k = cc
  child-below [] y (z ∷ zs) h k = cc
  child-below (w ∷ ws) [] z h k = cc
  child-below (w ∷ ws) (y ∷ ys) [] h k = cc
  child-below (w ∷ ws) (y ∷ ys) (z ∷ zs) h k = ground (arith, child-below ws ys zs)

  pub below_trans : (x y z : Bytes) → rel x y ≡ below → is_before (rel y z) ≡ true → rel x z ≡ below
  below_trans [] [] z h k = cc
  below_trans [] (y ∷ ys) z h k = cc
  below_trans (x ∷ xs) [] z h k = cc
  below_trans (x ∷ xs) (y ∷ ys) [] h k = cc
  below_trans (x ∷ xs) (y ∷ ys) (z ∷ zs) h k = ground (arith, below_trans xs ys zs)

  pub before_trans :
      (x y z : Bytes)
      → is_before (rel x y) ≡ true
      → is_before (rel y z) ≡ true
      → is_before (rel x z) ≡ true
  before_trans [] [] z h k = cc
  before_trans [] (y ∷ ys) [] h k = cc
  before_trans [] (y ∷ ys) (z ∷ zs) h k = refl
  before_trans (x ∷ xs) [] z h k = cc
  before_trans (x ∷ xs) (y ∷ ys) [] h k = cc
  before_trans (x ∷ xs) (y ∷ ys) (z ∷ zs) h k = ground (arith, before_trans xs ys zs)

  -- of two prefixes of one text, the one before goes on to the other
  pub prefixes_nest :
      (x y u : Bytes)
      → is_prefix (rel x u) ≡ true
      → is_prefix (rel y u) ≡ true
      → is_before (rel x y) ≡ true
      → rel x y ≡ inside
  prefixes_nest [] [] u h k b = cc
  prefixes_nest [] (y ∷ ys) u h k b = refl
  prefixes_nest (x ∷ xs) [] u h k b = cc
  prefixes_nest (x ∷ xs) (y ∷ ys) [] h k b = cc
  prefixes_nest (x ∷ xs) (y ∷ ys) (u ∷ us) h k b = ground (arith, prefixes_nest xs ys us)

  pub not_after_trans :
      (x y z : Bytes)
      → is_after (rel x y) ≡ false
      → is_after (rel y z) ≡ false
      → (is_after (rel x z) ≡ false)
        × (is_same (rel x z) ≡ true → (is_same (rel x y) ≡ true) × (is_same (rel y z) ≡ true))
  not_after_trans [] [] z h k = (k, λ e. (refl, e))
  not_after_trans [] (y ∷ ys) [] h k = (refl, λ e. absurd (cc))
  not_after_trans [] (y ∷ ys) (z ∷ zs) h k = (refl, λ e. absurd (cc))
  not_after_trans (x ∷ xs) [] z h k = absurd (cc)
  not_after_trans (x ∷ xs) (y ∷ ys) [] h k = absurd (cc)
  not_after_trans (x ∷ xs) (y ∷ ys) (z ∷ zs) h k =
      let ih = not_after_trans xs ys zs in (ground (arith, ih), λ e. ground (arith, ih))
