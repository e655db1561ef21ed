-- ===== src/HttpDynamic/Names.antt =====
-- The order of location names. A name is a text without NUL bytes; C reads one where it ends.
pub mod Order
use nginx_toolkit_module.Base.{
  ℕ, zero, suc, ◌<◌, ◌≤◌, ◌≡◌, refl, ◌∙◌, Bool, true, false, [], ◌∷◌, ◌++◌, ◌==◌, compare, Ordering,
  lt, eq, gt, arith, if◌then◌else◌, length, leb,
}
use nginx_toolkit_module.Text.{Bytes, starts_with, has}

-- Names compared by the ranks of their bytes, up to `n` of them; a text has a NUL behind it.
unfoldable pub ranked_cmp : (ℕ → ℕ) → Bytes → Bytes → ℕ → Ordering
ranked_cmp rank xs ys zero = eq
ranked_cmp rank [] [] (suc n) = eq
ranked_cmp rank [] (y ∷ ys) (suc n) = if y == 0 then eq else lt
ranked_cmp rank (x ∷ xs) [] (suc n) = if x == 0 then eq else gt
ranked_cmp rank (x ∷ xs) (y ∷ ys) (suc n) = elim (compare (rank x) (rank y)) [
  | lt ↦ lt
  | gt ↦ gt
  | eq ↦ if x == 0 then eq else ranked_cmp rank xs ys n
]

-- ngx_filename_cmp where file names keep their case: different bytes have different ranks, which
-- are those of the bytes but for the slash
pub record FileNames : Type 0 where
  pub rank : ℕ → ℕ
  pub rank-inj : (x y : ℕ) → rank x ≡ rank y → x ≡ y
  pub filename_cmp : Bytes → Bytes → ℕ → Ordering
  pub filename_cmp-ranked : (xs ys : Bytes) (n : ℕ) → filename_cmp xs ys n ≡ ranked_cmp rank xs ys n

abbrev pub slash_rank : ℕ → ℕ
slash_rank x = if x == 0 then 0 else if x == b'/' then 1 else suc x

pub slash_rank-inj : (x y : ℕ) → slash_rank x ≡ slash_rank y → x ≡ y
slash_rank-inj x y h = ground (arith, h)

-- ranks that put the slash before every other byte but NUL
abbrev pub slash_first : FileNames
slash_first = record {
  rank = slash_rank;
  rank-inj = slash_rank-inj;
  filename_cmp = ranked_cmp slash_rank;
  filename_cmp-ranked = λ xs ys n. refl;
}

abbrev pub filename_cmp : ⦃f : FileNames⦄ → Bytes → Bytes → ℕ → Ordering
filename_cmp ⦃f⦄ = f.filename_cmp

-- How two texts stand: the first byte that differs is smaller or greater, they are equal, or one
-- goes on where the other ends.
pub data Rel : Type 0 where
  below : Rel
  above : Rel
  same : Rel
  inside : Rel
  beyond : Rel

abbrev pub rel : ⦃f : FileNames⦄ → Bytes → Bytes → Rel
rel [] [] = same
rel [] (y ∷ ys) = inside
rel (x ∷ xs) [] = beyond
rel ⦃f⦄ (x ∷ xs) (y ∷ ys) = elim (compare (f.rank x) (f.rank y)) [
  | lt ↦ below
  | gt ↦ above
  | eq ↦ rel xs ys
]

abbrev pub is_below : Rel → Bool
is_below below = true
is_below _ = false

abbrev pub is_same : Rel → Bool
is_same same = true
is_same _ = false

abbrev pub is_inside : Rel → Bool
is_inside inside = true
is_inside _ = false

-- before in the order of names
abbrev pub is_before : Rel → Bool
is_before below = true
is_before inside = true
is_before _ = false

abbrev pub is_after : Rel → Bool
is_after above = true
is_after beyond = true
is_after _ = false

-- the first text is a prefix of the second
abbrev pub is_prefix : Rel → Bool
is_prefix same = true
is_prefix inside = true
is_prefix _ = false

module _ ⦃f : FileNames⦄ where
  pub rel_refl : (x : Bytes) → rel x x ≡ same
  rel_refl [] = refl
  rel_refl (x ∷ xs) = ground (arith, rel_refl xs)

  pub eq_of_same : (x y : Bytes) → rel x y ≡ same → x ≡ y
  eq_of_same [] [] h = refl
  eq_of_same [] (y ∷ ys) h = cc
  eq_of_same (x ∷ xs) [] h = cc
  eq_of_same (x ∷ xs) (y ∷ ys) h = ground (arith, eq_of_same xs ys, f.rank-inj x y)

abbrev pub flip : Rel → Rel
flip below = above
flip above = below
flip same = same
flip inside = beyond
flip beyond = inside

module _ ⦃f : FileNames⦄ where
  pub rel-flip : (x y : Bytes) → rel y x ≡ flip (rel x y)
  rel-flip [] [] = refl
  rel-flip [] (y ∷ ys) = refl
  rel-flip (x ∷ xs) [] = refl
  rel-flip (x ∷ xs) (y ∷ ys) = ground (arith, rel-flip xs ys)

-- what a comparison of the common length tells
abbrev pub cut : Rel → Ordering
cut below = lt
cut above = gt
cut _ = eq

-- what a comparison of one byte more tells
abbrev pub order : Rel → Ordering
order below = lt
order inside = lt
order above = gt
order beyond = gt
order same = eq

abbrev pub lesser : ℕ → ℕ → ℕ
lesser m n = if leb m n then m else n

lesser-suc : (m n : ℕ) → lesser (suc m) (suc n) ≡ suc (lesser m n)
lesser-suc m n = ground arith

module _ ⦃f : FileNames⦄ where
  ranked_cmp-cut :
      (u s : Bytes)
      → has 0 s ≡ false
      → ranked_cmp f.rank u s (lesser (length u) (length s)) ≡ cut (rel u s)
  unfolding ranked_cmp
  ranked_cmp-cut [] [] h = refl
  ranked_cmp-cut [] (y ∷ ys) h = ground arith
  ranked_cmp-cut (x ∷ xs) [] h = ground arith
  ranked_cmp-cut (x ∷ xs) (y ∷ ys) h =
      rw (lesser-suc (length xs) (length ys)) (ground (arith, ranked_cmp-cut xs ys, f.rank-inj x y))

  ranked_cmp-order :
      (u s : Bytes)
      → has 0 u ≡ false
      → has 0 s ≡ false
      → ranked_cmp f.rank u s (suc (lesser (length u) (length s))) ≡ order (rel u s)
  unfolding ranked_cmp
  ranked_cmp-order [] [] h k = refl
  ranked_cmp-order [] (y ∷ ys) h k = ground arith
  ranked_cmp-order (x ∷ xs) [] h k = ground arith
  ranked_cmp-order (x ∷ xs) (y ∷ ys) h k =
      rw (lesser-suc (length xs) (length ys))
        (ground (arith, ranked_cmp-order xs ys, f.rank-inj x y))

  -- the tests of a name's length and bytes
  ranked_cmp-same :
      (x y : Bytes)
      → length x ≡ length y
      → has 0 x ≡ false
      → ranked_cmp f.rank x y (length y) ≡ cut (rel x y)
  unfolding ranked_cmp
  ranked_cmp-same [] [] e h = refl
  ranked_cmp-same [] (y ∷ ys) e h = absurd (omega arith)
  ranked_cmp-same (x ∷ xs) [] e h = absurd (omega arith)
  ranked_cmp-same (x ∷ xs) (y ∷ ys) e h = ground (arith, ranked_cmp-same xs ys, f.rank-inj x y)

  pub filename_cmp-cut :
      (u s : Bytes)
      → has 0 s ≡ false
      → filename_cmp u s (lesser (length u) (length s)) ≡ cut (rel u s)
  filename_cmp-cut u s h =
      f.filename_cmp-ranked u s (lesser (length u) (length s)) ∙ ranked_cmp-cut u s h

  pub filename_cmp-order :
      (u s : Bytes)
      → has 0 u ≡ false
      → has 0 s ≡ false
      → filename_cmp u s (suc (lesser (length u) (length s))) ≡ order (rel u s)
  filename_cmp-order u s h k =
      f.filename_cmp-ranked u s (suc (lesser (length u) (length s))) ∙ ranked_cmp-order u s h k

  -- the tests of a name's length and bytes
  pub filename_cmp-same :
      (x y : Bytes)
      → length x ≡ length y
      → has 0 x ≡ false
      → filename_cmp x y (length y) ≡ cut (rel x y)
  filename_cmp-same x y e h = f.filename_cmp-ranked x y (length y) ∙ ranked_cmp-same x y e h

  pub length-rel :
      (x y : Bytes)
      → (rel x y ≡ same → length x ≡ length y)
        × (rel x y ≡ inside → length x < length y)
        × (rel x y ≡ beyond → length y < length x)
  length-rel [] [] = (λ e. refl, λ e. absurd (cc), λ e. absurd (cc))
  length-rel [] (y ∷ ys) = (λ e. absurd (cc), λ e. omega arith, λ e. absurd (cc))
  length-rel (x ∷ xs) [] = (λ e. absurd (cc), λ e. absurd (cc), λ e. omega arith)
  length-rel (x ∷ xs) (y ∷ ys) =
      let (a, b, c) = length-rel xs ys in
      (λ e. ground (arith, a), λ e. ground (arith, b), λ e. ground (arith, c))

  pub rel-append : (p s u : Bytes) → rel (p ++ s) (p ++ u) ≡ rel s u
  rel-append [] s u = refl
  rel-append (x ∷ p) s u = ground (arith, rel-append p s u)

  pub prefix-length : (x u : Bytes) → is_prefix (rel x u) ≡ true → length x ≤ length u
  prefix-length x u h = let (a, b, c) = length-rel x u in ground (arith, a, b)
