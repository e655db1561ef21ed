-- ===== src/HttpDynamic/Search/Kept.antt =====
-- What a queue in another order, and the part of it without regular expressions, keep.
use nginx_toolkit_module.Base.{
  ◌≡◌, ◌⊎◌, inl, inr, Bool, true, false, List, [], ◌∷◌, arith, All, Bool-cases, if◌then◌else◌,
}
use nginx_toolkit_module.HttpDynamic.Names.{rel-flip}
use nginx_toolkit_module.HttpDynamic.Location.{Entry}
use nginx_toolkit_module.HttpDynamic.Trees.Best.{Keeps}
use nginx_toolkit_module.HttpDynamic.Trees.Join.{Pairwise, NotTwice, Keeps-cons}
use nginx_toolkit_module.HttpDynamic.Search.Sort.{
  Rearranges, none_left, keep, swap, and_then, filter, Rearranges-All, Rearranges-refl,
}
use nginx_toolkit_module.HttpDynamic.Names.{FileNames}

pub All-filter :
    (P : Entry → Type 0) (p : Entry → Bool) (xs : List Entry) → All P xs → All P (filter p xs)
All-filter P p [] h = tt
All-filter P p (x ∷ xs) (a, h) = elim (Bool-cases (p x)) [
  | inl e ↦ rw e (a, All-filter P p xs h)
  | inr e ↦ rw e (All-filter P p xs h)
]

pub filter-All : (p : Entry → Bool) (xs : List Entry) → All (λ x. p x ≡ true) (filter p xs)
filter-All p [] = tt
filter-All p (x ∷ xs) = elim (Bool-cases (p x)) [
  | inl e ↦ rw e (e, filter-All p xs)
  | inr e ↦ rw e (filter-All p xs)
]

pub Pairwise-filter :
    (R : Entry → Entry → Type 0) (p : Entry → Bool) (xs : List Entry)
    → Pairwise R xs
    → Pairwise R (filter p xs)
Pairwise-filter R p [] h = tt
Pairwise-filter R p (x ∷ xs) (a, h) = elim (Bool-cases (p x)) [
  | inl e ↦ rw e (All-filter (R x) p xs a, Pairwise-filter R p xs h)
  | inr e ↦ rw e (Pairwise-filter R p xs h)
]

pub All-imp_with :
    (P : Entry → Type 0) (Q S : Entry → Type 0) (xs : List Entry)
    → ((y : Entry) → P y → Q y → S y)
    → All P xs
    → All Q xs
    → All S xs
All-imp_with P Q S [] f p q = tt
All-imp_with P Q S (y ∷ ys) f (a, p) (b, q) = (f y a b, All-imp_with P Q S ys f p q)

pub Pairwise-imp :
    (P : Entry → Type 0) (R S : Entry → Entry → Type 0) (xs : List Entry)
    → ((x y : Entry) → P x → P y → R x y → S x y)
    → All P xs
    → Pairwise R xs
    → Pairwise S xs
Pairwise-imp P R S [] f p h = tt
Pairwise-imp P R S (x ∷ xs) f (a, p) (b, h) =
    (All-imp_with P (R x) (S x) xs (λ y. f x y a) p b, Pairwise-imp P R S xs f p h)

pub Rearranges-filter :
    (p : Entry → Bool) {xs ys : List Entry}
    → Rearranges xs ys
    → Rearranges (filter p xs) (filter p ys)
Rearranges-filter p none_left = none_left
Rearranges-filter p (keep x r) = elim (Bool-cases (p x)) [
  | inl e ↦ rw e (keep x (Rearranges-filter p r))
  | inr e ↦ rw e (Rearranges-filter p r)
]
Rearranges-filter p (swap x y xs) = both (p x) (p y)
  where
    both :
        (a b : Bool)
        → Rearranges
            (if a
              then x ∷ (if b then y ∷ filter p xs else filter p xs)
              else if b
              then y ∷ filter p xs
              else filter p xs)
            (if b
              then y ∷ (if a then x ∷ filter p xs else filter p xs)
              else if a
              then x ∷ filter p xs
              else filter p xs)
    both true true = swap x y (filter p xs)
    both true false = Rearranges-refl (x ∷ filter p xs)
    both false true = Rearranges-refl (y ∷ filter p xs)
    both false false = Rearranges-refl (filter p xs)
Rearranges-filter p (and_then r q) = and_then (Rearranges-filter p r) (Rearranges-filter p q)

module _ ⦃f : FileNames⦄ where
  NotTwice-sym : (x y : Entry) → NotTwice x y → NotTwice y x
  NotTwice-sym x y h = let e = rel-flip x.name y.name in ground (arith, e)

  pub Rearranges-NotTwice :
      {xs ys : List Entry} → Rearranges xs ys → Pairwise NotTwice xs → Pairwise NotTwice ys
  Rearranges-NotTwice none_left h = h
  Rearranges-NotTwice (keep x r) (a, h) = (Rearranges-All (NotTwice x) r a, Rearranges-NotTwice r h)
  Rearranges-NotTwice (swap x y xs) ((a, b), (c, h)) = ((NotTwice-sym x y a, c), (b, h))
  Rearranges-NotTwice (and_then r q) h = Rearranges-NotTwice q (Rearranges-NotTwice r h)

-- both orders of two places
or_swap {ℓ κ μ} : {A : Type ℓ} → {B : Type κ} → {C : Type μ} → A ⊎ (B ⊎ C) → B ⊎ (A ⊎ C)
or_swap (inl a) = inr (inl a)
or_swap (inr (inl b)) = inl b
or_swap (inr (inr c)) = inr (inr c)

Keeps-trans : (xs ys zs : List Entry) → Keeps xs ys → Keeps ys zs → Keeps xs zs
Keeps-trans xs ys zs k l = record {
  exact_to = λ n c h. k.exact_to n c (l.exact_to n c h);
  exact_from = λ n c h. l.exact_from n c (k.exact_from n c h);
  inclusive_to = λ n c h. k.inclusive_to n c (l.inclusive_to n c h);
  inclusive_from = λ n c h. l.inclusive_from n c (k.inclusive_from n c h);
}

pub Rearranges-Keeps : {xs ys : List Entry} → Rearranges xs ys → Keeps xs ys
Rearranges-Keeps none_left = record {
  exact_to = λ n c h. h;
  exact_from = λ n c h. h;
  inclusive_to = λ n c h. h;
  inclusive_from = λ n c h. h;
}
Rearranges-Keeps (keep x {xs} {ys} r) = Keeps-cons x xs ys (Rearranges-Keeps r)
Rearranges-Keeps (swap x y xs) = record {
  exact_to = λ n c h. or_swap h;
  exact_from = λ n c h. or_swap h;
  inclusive_to = λ n c h. or_swap h;
  inclusive_from = λ n c h. or_swap h;
}
Rearranges-Keeps (and_then {xs} {ys} {zs} r q) =
    Keeps-trans xs ys zs (Rearranges-Keeps r) (Rearranges-Keeps q)
