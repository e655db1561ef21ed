-- ===== src/Map/Sorted.antt =====
-- Lists of map nodes in the order of their keys: the abstract view of a map.
use nginx_toolkit_module.Base.{
  Ordering, lt, eq, gt, ◌≡◌, refl, ◌∙◌, ◌⊎◌, inl, inr, Option, none, some, List, [], ◌∷◌, ◌++◌, All,
  All-append, All-append_left, All-append_right, All-imp, arith,
}
use nginx_toolkit_module.Map.{MapNode}

pub Ordering-cases : (x : Ordering) → (x ≡ lt) ⊎ ((x ≡ eq) ⊎ (x ≡ gt))
Ordering-cases lt = inl refl
Ordering-cases eq = inr (inl refl)
Ordering-cases gt = inr (inr refl)

-- a choice by a comparison: `hit` where the two are equal
abbrev pub choose {ℓ} : {A : Type ℓ} → Ordering → A → A → A
choose eq hit miss = hit
choose _ hit miss = miss

-- a strict total order, given as a three-way comparison
pub record IsOrder {ℓ} {K : Type ℓ} (r : K → K → Ordering) : Type ℓ where
  pub rank_refl : (a : K) → r a a ≡ eq
  pub eq_of_rank : (a b : K) → r a b ≡ eq → a ≡ b
  pub lt_of_gt : (a b : K) → r a b ≡ gt → r b a ≡ lt
  pub gt_of_lt : (a b : K) → r a b ≡ lt → r b a ≡ gt
  pub lt_trans : (a b c : K) → r a b ≡ lt → r b c ≡ lt → r a c ≡ lt

module _ {ℓ κ} {K : Type ℓ} {V : Type κ} (r : K → K → Ordering) where
  abbrev pub Above : K → List (MapNode K V) → Type 0
  Above k xs = All (λ x. r k x.raw_key ≡ lt) xs

  abbrev pub Below : K → List (MapNode K V) → Type 0
  Below k xs = All (λ x. r x.raw_key k ≡ lt) xs

  abbrev pub Sorted : List (MapNode K V) → Type 0
  Sorted [] = Unit
  Sorted (x ∷ xs) = Above x.raw_key xs × Sorted xs

  -- the value under a key
  abbrev pub lookup : K → List (MapNode K V) → Option V
  lookup k [] = none
  lookup k (x ∷ xs) = elim (r k x.raw_key) [ eq ↦ some x.value | _ ↦ lookup k xs ]

  -- a node put in its place; one with the same key stays
  unfoldable pub place : MapNode K V → List (MapNode K V) → List (MapNode K V)
  place n [] = n ∷ []
  place n (x ∷ xs) = elim (r n.raw_key x.raw_key) [
    | lt ↦ n ∷ x ∷ xs
    | eq ↦ x ∷ xs
    | gt ↦ x ∷ place n xs
  ]

module _ {ℓ κ} {K : Type ℓ} {V : Type κ} {r : K → K → Ordering} (o : IsOrder r) where
  pub Above-trans : (a b : K) (xs : List (MapNode K V)) → r a b ≡ lt → Above r b xs → Above r a xs
  Above-trans a b xs h = All-imp xs (λ x p. o.lt_trans a b x.raw_key h p)

  pub Below-trans : (a b : K) (xs : List (MapNode K V)) → r a b ≡ lt → Below r a xs → Below r b xs
  Below-trans a b xs h = All-imp xs (λ x p. o.lt_trans x.raw_key a b p h)

  pub lookup-Above : (k : K) (xs : List (MapNode K V)) → Above r k xs → lookup r k xs ≡ none
  lookup-Above k [] h = refl
  lookup-Above k (x ∷ xs) h = ground (arith, lookup-Above k xs)

  -- under an equal key the same is found
  pub lookup_eq :
      (k j : K) (xs : List (MapNode K V))
      → lookup r j xs ≡ choose (r j k) (lookup r k xs) (lookup r j xs)
  lookup_eq k j xs = elim (Ordering-cases (r j k)) [
    | inl e ↦ rw e
    | inr (inl e) ↦ rw (e, o.eq_of_rank j k e)
    | inr (inr e) ↦ rw e
  ]

  -- a lookup passes over what stands below the key
  pub lookup-append_Below :
      (k : K) (xs ys : List (MapNode K V)) → Below r k xs → lookup r k (xs ++ ys) ≡ lookup r k ys
  lookup-append_Below k [] ys h = refl
  lookup-append_Below k (x ∷ xs) ys h =
      ground (arith, o.gt_of_lt x.raw_key k, lookup-append_Below k xs ys)

  pub lookup-append_Above :
      (k : K) (xs ys : List (MapNode K V)) → Above r k ys → lookup r k (xs ++ ys) ≡ lookup r k xs
  lookup-append_Above k [] ys h = lookup-Above k ys h
  lookup-append_Above k (x ∷ xs) ys h = ground (arith, lookup-append_Above k xs ys)

  pub Above-place :
      (k : K) (n : MapNode K V) (xs : List (MapNode K V))
      → r k n.raw_key ≡ lt
      → Above r k xs
      → Above r k (place r n xs)
  unfolding place
  Above-place k n [] h a = (h, tt)
  Above-place k n (x ∷ xs) h a = ground (arith, Above-place k n xs)

  pub Sorted-place :
      (n : MapNode K V) (xs : List (MapNode K V)) → Sorted r xs → Sorted r (place r n xs)
  unfolding place
  Sorted-place n [] s = (tt, tt)
  Sorted-place n (x ∷ xs) s = ground (
    arith,
    Sorted-place n xs,
    Above-trans n.raw_key x.raw_key xs,
    Above-place x.raw_key n xs,
    o.lt_of_gt n.raw_key x.raw_key,
  )

  pub lookup-place :
      (j : K) (n : MapNode K V) (xs : List (MapNode K V))
      → lookup r n.raw_key xs ≡ none
      → lookup r j (place r n xs) ≡ choose (r j n.raw_key) (some n.value) (lookup r j xs)
  unfolding place
  lookup-place j n [] h = ground arith
  lookup-place j n (x ∷ xs) h = ground (arith, lookup-place j n xs, o.eq_of_rank j n.raw_key)

  -- where the key is new, the node is put between two parts of the list
  pub place-split :
      (n : MapNode K V) (xs : List (MapNode K V))
      → lookup r n.raw_key xs ≡ none
      → (ys zs : List (MapNode K V)) × (place r n xs ≡ ys ++ (n ∷ zs))
  unfolding place
  place-split n [] h = ([], [], refl)
  place-split n (x ∷ xs) h = elim (Ordering-cases (r n.raw_key x.raw_key)) [
    | inl e ↦ ([], x ∷ xs, rw (e, place))
    | inr (inl e) ↦ absurd (ground arith)
    | inr (inr e) ↦
        let (ys, zs, p) = place-split n xs (ground arith) in (x ∷ ys, zs, rw (e, place, p))
  ]

  pub place-append_left :
      (n x : MapNode K V) (xs ys : List (MapNode K V))
      → r n.raw_key x.raw_key ≡ lt
      → place r n (xs ++ (x ∷ ys)) ≡ place r n xs ++ (x ∷ ys)
  unfolding place
  place-append_left n x [] ys h = rw h
  place-append_left n x (w ∷ xs) ys h = ground (arith, place-append_left n x xs ys)

  pub place-append_Below :
      (n : MapNode K V) (xs ys : List (MapNode K V))
      → Below r n.raw_key xs
      → place r n (xs ++ ys) ≡ xs ++ place r n ys
  unfolding place
  place-append_Below n [] ys h = refl
  place-append_Below n (x ∷ xs) ys h =
      ground (arith, o.gt_of_lt x.raw_key n.raw_key, place-append_Below n xs ys)

  pub Sorted-append :
      (x : MapNode K V) (xs ys : List (MapNode K V))
      → Sorted r (xs ++ (x ∷ ys))
      → Below r x.raw_key xs × Above r x.raw_key ys × Sorted r xs × Sorted r ys
  Sorted-append x [] ys s = (tt, s.0, tt, s.1)
  Sorted-append x (w ∷ xs) ys s =
      let (b, a, sx, sy) = Sorted-append x xs ys s.1 in
      (((All-append_right _ xs (x ∷ ys) s.0).0, b), a, (All-append_left _ xs (x ∷ ys) s.0, sx), sy)

  pub Sorted-unlink :
      (x : MapNode K V) (xs ys : List (MapNode K V))
      → Sorted r (xs ++ (x ∷ ys))
      → Sorted r (xs ++ ys)
  Sorted-unlink x [] ys s = s.1
  Sorted-unlink x (w ∷ xs) ys s = (
    All-append _ xs ys (All-append_left _ xs (x ∷ ys) s.0) (All-append_right _ xs (x ∷ ys) s.0).1,
    Sorted-unlink x xs ys s.1,
  )

  pub lookup_middle :
      (x : MapNode K V) (xs ys : List (MapNode K V))
      → Sorted r (xs ++ (x ∷ ys))
      → lookup r x.raw_key (xs ++ (x ∷ ys)) ≡ some x.value
  lookup_middle x xs ys s =
      lookup-append_Below x.raw_key xs (x ∷ ys) (Sorted-append x xs ys s).0
      ∙ ground (arith, o.rank_refl x.raw_key)

  pub lookup-unlink :
      (j : K) (x : MapNode K V) (xs ys : List (MapNode K V))
      → Sorted r (xs ++ (x ∷ ys))
      → lookup r j (xs ++ ys) ≡ choose (r j x.raw_key) none (lookup r j (xs ++ (x ∷ ys)))
  lookup-unlink j x xs ys s =
      let (b, a, sx, sy) = Sorted-append x xs ys s in
      ground (
        arith,
        o.eq_of_rank j x.raw_key,
        o.lt_of_gt j x.raw_key,
        lookup-append_Below j xs ys,
        lookup-append_Below j xs (x ∷ ys),
        lookup-append_Above j xs ys,
        lookup-append_Above j xs (x ∷ ys),
        Above-trans j x.raw_key ys,
        Below-trans x.raw_key j xs,
        lookup-Above j ys,
      )
