-- ===== src/HttpDynamic/Search/Sort.antt =====
-- ngx_queue_sort: the interface, and insertion sort as a value of it.
use nginx_toolkit_module.Base.{
  ◌≡◌, ◌≢◌, refl, ◌∙◌, Bool, true, List, [], ◌∷◌, arith, Ordering, lt, eq, gt, if◌then◌else◌, All,
}
use nginx_toolkit_module.HttpDynamic.Location.{Entry}
use nginx_toolkit_module.HttpDynamic.Trees.Join.{Pairwise}

-- the same entries in another order
pub data Rearranges : List Entry → List Entry → Type 0 where
  none_left : Rearranges [] []
  keep : (x : Entry) {xs ys : List Entry} → Rearranges xs ys → Rearranges (x ∷ xs) (x ∷ ys)
  swap : (x y : Entry) (xs : List Entry) → Rearranges (x ∷ y ∷ xs) (y ∷ x ∷ xs)
  and_then : {xs ys zs : List Entry} → Rearranges xs ys → Rearranges ys zs → Rearranges xs zs

abbrev pub filter : (Entry → Bool) → List Entry → List Entry
filter p [] = []
filter p (x ∷ xs) = if p x then x ∷ filter p xs else filter p xs

-- a comparison by which entries with `P` can be sorted
pub record IsOrder (P : Entry → Type 0) (cmp : Entry → Entry → Ordering) : Type 0 where
  pub total : (x y : Entry) → P x → P y → cmp x y ≡ gt → cmp y x ≢ gt
  pub trans : (x y z : Entry) → P x → P y → P z → cmp x y ≢ gt → cmp y z ≢ gt → cmp x z ≢ gt

-- the stable sort of a queue
pub record QueueSort : Type 1 where
  pub sort : (Entry → Entry → Ordering) → List Entry → List Entry
  pub rearranges : (cmp : Entry → Entry → Ordering) (xs : List Entry) → Rearranges xs (sort cmp xs)
  pub sorted :
      (P : Entry → Type 0) (cmp : Entry → Entry → Ordering) (xs : List Entry)
      → IsOrder P cmp
      → All P xs
      → Pairwise (λ x y. cmp x y ≢ gt) (sort cmp xs)
  pub stable :
      (cmp : Entry → Entry → Ordering) (p : Entry → Bool) (xs : List Entry)
      → ((x y : Entry) → p x ≡ true → p y ≡ true → cmp x y ≡ eq)
      → filter p (sort cmp xs) ≡ filter p xs

pub Rearranges-refl : (xs : List Entry) → Rearranges xs xs
Rearranges-refl [] = none_left
Rearranges-refl (x ∷ xs) = keep x (Rearranges-refl xs)

pub Rearranges-All :
    (P : Entry → Type 0) {xs ys : List Entry} → Rearranges xs ys → All P xs → All P ys
Rearranges-All P none_left h = h
Rearranges-All P (keep x r) (a, h) = (a, Rearranges-All P r h)
Rearranges-All P (swap x y xs) (a, (b, h)) = (b, (a, h))
Rearranges-All P (and_then r q) h = Rearranges-All P q (Rearranges-All P r h)

module _ (cmp : Entry → Entry → Ordering) where
  -- before the first entry that is not smaller
  unfoldable pub put : Entry → List Entry → List Entry
  put x [] = x ∷ []
  put x (y ∷ ys) =
      let rest = y ∷ put x ys in elim (cmp x y) [ gt ↦ rest | lt ↦ x ∷ y ∷ ys | eq ↦ x ∷ y ∷ ys ]

  unfoldable pub insertion : List Entry → List Entry
  unfolding put
  insertion [] = []
  insertion (x ∷ xs) = put x (insertion xs)

  put-Rearranges : (x : Entry) (ys : List Entry) → Rearranges (x ∷ ys) (put x ys)
  unfolding put
  put-Rearranges x [] = Rearranges-refl (x ∷ [])
  put-Rearranges x (y ∷ ys) = by_cmp (cmp x y) (put-Rearranges x ys)
    where
      by_cmp :
          (o : Ordering)
          → Rearranges (x ∷ ys) (put x ys)
          → Rearranges
              (x ∷ y ∷ ys)
              (elim o [ gt ↦ y ∷ put x ys | lt ↦ x ∷ y ∷ ys | eq ↦ x ∷ y ∷ ys ])
      by_cmp lt ih = Rearranges-refl (x ∷ y ∷ ys)
      by_cmp eq ih = Rearranges-refl (x ∷ y ∷ ys)
      by_cmp gt ih = and_then (swap x y ys) (keep y ih)

  pub insertion-Rearranges : (xs : List Entry) → Rearranges xs (insertion xs)
  unfolding insertion
  insertion-Rearranges [] = none_left
  insertion-Rearranges (x ∷ xs) =
      and_then (keep x (insertion-Rearranges xs)) (put-Rearranges x (insertion xs))

  abbrev Le : Entry → Entry → Type 0
  Le x y = cmp x y ≢ gt

  -- what `x` is not behind, through `y`
  Le-All :
      (P : Entry → Type 0) (x y : Entry) (ys : List Entry)
      → IsOrder P cmp
      → P x
      → P y
      → All P ys
      → Le x y
      → All (Le y) ys
      → All (Le x) ys
  Le-All P x y [] o px py p a b = tt
  Le-All P x y (z ∷ zs) o px py (pz, p) a (b, bs) =
      (o.trans x y z px py pz a b, Le-All P x y zs o px py p a bs)

  put-Pairwise :
      (P : Entry → Type 0) (x : Entry) (ys : List Entry)
      → IsOrder P cmp
      → P x
      → All P ys
      → Pairwise Le ys
      → Pairwise Le (put x ys)
  unfolding put
  put-Pairwise P x [] o px p h = (tt, tt)
  put-Pairwise P x (y ∷ ys) o px (py, p) (a, h) =
      by_cmp (cmp x y) refl (put-Pairwise P x ys o px p h)
    where
      stays : Le x y → Pairwise Le (x ∷ y ∷ ys)
      stays b = ((b, Le-All P x y ys o px py p b a), (a, h))

      by_cmp :
          (r : Ordering)
          → cmp x y ≡ r
          → Pairwise Le (put x ys)
          → Pairwise Le (elim r [ gt ↦ y ∷ put x ys | lt ↦ x ∷ y ∷ ys | eq ↦ x ∷ y ∷ ys ])
      by_cmp lt e ih = stays (λ g. cc)
      by_cmp eq e ih = stays (λ g. cc)
      by_cmp gt e ih = (Rearranges-All (Le y) (put-Rearranges x ys) (o.total x y px py e, a), ih)

  pub insertion-Pairwise :
      (P : Entry → Type 0) (xs : List Entry) → IsOrder P cmp → All P xs → Pairwise Le (insertion xs)
  unfolding insertion
  insertion-Pairwise P [] o p = tt
  insertion-Pairwise P (x ∷ xs) o (px, p) =
      put-Pairwise P x (insertion xs) o px (Rearranges-All P (insertion-Rearranges xs) p)
        (insertion-Pairwise P xs o p)

  put-filter :
      (p : Entry → Bool) (x : Entry) (ys : List Entry)
      → ((x y : Entry) → p x ≡ true → p y ≡ true → cmp x y ≡ eq)
      → filter p (put x ys) ≡ filter p (x ∷ ys)
  unfolding put
  put-filter p x [] h = refl
  put-filter p x (y ∷ ys) h = ground (arith, h x y, put-filter p x ys h)

  pub insertion-filter :
      (p : Entry → Bool) (xs : List Entry)
      → ((x y : Entry) → p x ≡ true → p y ≡ true → cmp x y ≡ eq)
      → filter p (insertion xs) ≡ filter p xs
  unfolding insertion
  insertion-filter p [] h = refl
  insertion-filter p (x ∷ xs) h =
      put-filter p x (insertion xs) h ∙ ground (arith, insertion-filter p xs h)

unfoldable pub insertion_sort : QueueSort
insertion_sort = record {
  sort = insertion;
  rearranges = insertion-Rearranges;
  sorted = λ P cmp xs. insertion-Pairwise cmp P xs;
  stable = insertion-filter;
}
