-- ===== src/HttpDynamic/Trees/Split.antt =====
-- A queue split at an entry.
use nginx_toolkit_module.Base.{
  ℕ, zero, suc, ◌+◌, ◌<◌, ◌≡◌, refl, sym, ap, ◌∙◌, subst, inl, inr, false, some, List, ◌∷◌, ◌++◌,
  append_assoc, arith, All, All-append, All-imp, All-append_left, All-append_right, Bool-cases,
}
use nginx_toolkit_module.Text.{Bytes}
use nginx_toolkit_module.HttpDynamic.Names.{inside, rel}
use nginx_toolkit_module.HttpDynamic.Location.{Entry, is_some}
use nginx_toolkit_module.HttpDynamic.Trees.{Queue, nil, cons, split, size}
use nginx_toolkit_module.HttpDynamic.Trees.Flat.{flatten, count, Apart, Good, inner-Apart}
use nginx_toolkit_module.HttpDynamic.Names.{FileNames}

module _ ⦃f : FileNames⦄ where
  -- an entry and its list are apart from what the entry is apart from
  pub own-Apart :
      (x : Entry) (list : Queue) (zs : List Entry)
      → (is_some x.inclusive ≡ false → list ≡ nil)
      → All (λ y. rel x.name y.name ≡ inside) (flatten list)
      → All (Apart x) zs
      → All (λ y. All (Apart y) zs) (x ∷ flatten list)
  own-Apart x list zs bare under h = elim (Bool-cases (is_some x.inclusive)) [
    | inl i ↦ (h, All-imp (flatten list) (λ y e. All-imp zs (λ z. inner-Apart x y z i e) h) under)
    | inr i ↦ (h, subst (λ q. All (λ y. All (Apart y) zs) (flatten q)) (sym (bare i)) tt)
  ]

  -- The parts of a split queue: it is `before`, then `x` with `list`, then `behind`.
  pub record Parts (p : Bytes) (q before : Queue) (x : Entry) (list behind : Queue) (i : ℕ)
      : Type 0 where
    pub at : size before ≡ i
    pub sizes : size q ≡ suc (i + size behind)
    pub counts : count q ≡ suc (count before + count list + count behind)
    pub whole : flatten q ≡ flatten before ++ (x ∷ (flatten list ++ flatten behind))
    pub good : Good p (cons x list behind)
    pub good_before : Good p before
    pub apart_before :
        All (λ y. All (Apart y) (x ∷ (flatten list ++ flatten behind))) (flatten before)

  pub split-Parts :
      (p : Bytes) (i : ℕ) (q : Queue)
      → i < size q
      → Good p q
      → (before : Queue) × (x : Entry) × (list behind : Queue) × (split i q
          ≡ some (before, x, list, behind))
        × Parts p q before x list behind i
  unfolding split
  split-Parts p i nil h g = absurd (omega arith)
  split-Parts p zero (cons x list rest) h g = (
    nil,
    x,
    list,
    rest,
    refl,
    record {
      at = refl;
      sizes = omega arith;
      counts = omega arith;
      whole = refl;
      good = g;
      good_before = tt;
      apart_before = tt;
    },
  )
  split-Parts p (suc i) (cons y own rest) h (e, bare, under, inner, after, g) =
      let (before, x, list, behind, s, k) = split-Parts p i rest (omega arith) g in
      let tail = x ∷ (flatten list ++ flatten behind) in
      let after' : All (Apart y) (flatten before ++ tail) = subst (All (Apart y)) k.whole after in
      let lead =
        own-Apart y own tail bare under (All-append_right (Apart y) (flatten before) tail after') in
      (
        cons y own before,
        x,
        list,
        behind,
        rw (split, s),
        record {
          at = ap suc k.at;
          sizes = omega (arith, k.sizes);
          counts = omega (arith, k.counts);
          whole =
              ap (λ z. y ∷ (flatten own ++ z)) k.whole
              ∙ ap (λ z. y ∷ z) (sym (append_assoc (flatten own) (flatten before) tail));
          good = k.good;
          good_before = (
            e,
            bare,
            under,
            inner,
            All-append_left (Apart y) (flatten before) tail after',
            k.good_before,
          );
          apart_before = (
            lead.0,
            All-append (λ z. All (Apart z) tail) (flatten own) (flatten before) lead.1
                k.apart_before,
          );
        },
      )
