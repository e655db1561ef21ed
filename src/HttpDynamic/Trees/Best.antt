-- ===== src/HttpDynamic/Trees/Best.antt =====
-- What a search of entries in order finds: the exact location of the request's name, or the
-- inclusive one with the longest name that it begins with.
use nginx_toolkit_module.Base.{
  ℕ, ◌≤◌, ◌≡◌, refl, sym, ap, ◌∙◌, subst, ◌⊎◌, inl, inr, true, false, Option, none, some, List, [],
  ◌∷◌, arith, length, Option-cases, All, ◌||◌,
}
use nginx_toolkit_module.Text.{Bytes}
use nginx_toolkit_module.HttpDynamic.Names.{
  Rel, below, above, same, inside, beyond, rel, is_before, is_prefix, is_same, eq_of_same, rel_refl,
  prefix-length, length-rel,
}
use nginx_toolkit_module.HttpDynamic.Names.Order.{prefixes_nest}
use nginx_toolkit_module.HttpDynamic.Location.{LocConf, Entry, is_some}
use nginx_toolkit_module.HttpDynamic.Trees.{Found, again, ok, hit}
use nginx_toolkit_module.HttpDynamic.Trees.Flat.{scan, got}
use nginx_toolkit_module.HttpDynamic.Trees.Nest.{Before, Ordered}
use nginx_toolkit_module.HttpDynamic.Names.{FileNames}

-- a location of this name among the entries
abbrev pub ExactIn : Bytes → LocConf → List Entry → Type 0
ExactIn n c [] = ⊥
ExactIn n c (x ∷ xs) = ((x.name ≡ n) × (x.exact ≡ some c)) ⊎ ExactIn n c xs

abbrev pub InclusiveIn : Bytes → LocConf → List Entry → Type 0
InclusiveIn n c [] = ⊥
InclusiveIn n c (x ∷ xs) = ((x.name ≡ n) × (x.inclusive ≡ some c)) ⊎ InclusiveIn n c xs

abbrev pub NoExact : Bytes → List Entry → Type 0
NoExact u xs = (c : LocConf) → ExactIn u c xs → ⊥

module _ ⦃f : FileNames⦄ where
  -- no inclusive location that the name begins with is longer
  abbrev pub Longest : Bytes → ℕ → List Entry → Type 0
  Longest u k xs =
      (n : Bytes) (c : LocConf) → InclusiveIn n c xs → is_prefix (rel n u) ≡ true → length n ≤ k

  abbrev pub NoInclusive : Bytes → List Entry → Type 0
  NoInclusive u xs = (n : Bytes) (c : LocConf) → InclusiveIn n c xs → is_prefix (rel n u) ≡ true → ⊥

-- an entry has a location
abbrev pub Full : Entry → Type 0
Full x = (is_some x.exact || is_some x.inclusive) ≡ true

module _ ⦃f : FileNames⦄ where
  pub data Best (rv : Found) (u : Bytes) (xs : List Entry) (r : Found) : Type 0 where
    at_name : (c : LocConf) → r ≡ ok c → ExactIn u c xs → Best rv u xs r
    at_prefix :
        (n : Bytes) (c : LocConf)
        → r ≡ again c
        → InclusiveIn n c xs
        → is_prefix (rel n u) ≡ true
        → Longest u (length n) xs
        → NoExact u xs
        → Best rv u xs r
    nowhere : r ≡ rv → NoInclusive u xs → NoExact u xs → Best rv u xs r

  inclusive-Before :
      (x : Entry) (n : Bytes) (c : LocConf) (xs : List Entry)
      → All (Before x) xs
      → InclusiveIn n c xs
      → is_before (rel x.name n) ≡ true
  inclusive-Before x n c [] a h = absurd h
  inclusive-Before x n c (y ∷ ys) (b, a) (inl (e, _)) =
      ap (λ z. is_before (rel x.name z)) (sym e) ∙ b
  inclusive-Before x n c (y ∷ ys) (b, a) (inr h) = inclusive-Before x n c ys a h

  exact-Before :
      (x : Entry) (n : Bytes) (c : LocConf) (xs : List Entry)
      → All (Before x) xs
      → ExactIn n c xs
      → is_before (rel x.name n) ≡ true
  exact-Before x n c [] a h = absurd h
  exact-Before x n c (y ∷ ys) (b, a) (inl (e, _)) = ap (λ z. is_before (rel x.name z)) (sym e) ∙ b
  exact-Before x n c (y ∷ ys) (b, a) (inr h) = exact-Before x n c ys a h

  -- an entry of another name, and one without an inclusive location or no prefix
  NoExact-more :
      (u : Bytes) (x : Entry) (xs : List Entry)
      → is_same (rel x.name u) ≡ false
      → NoExact u xs
      → NoExact u (x ∷ xs)
  NoExact-more u x xs h k c (inl (e, _)) =
      let s : rel x.name u ≡ same = ap (λ z. rel z u) e ∙ rel_refl u in cc (ap is_same s)
  NoExact-more u x xs h k c (inr m) = k c m

  NoInclusive-more :
      (u : Bytes) (x : Entry) (xs : List Entry)
      → ((c : LocConf) → x.inclusive ≡ some c → is_prefix (rel x.name u) ≡ true → ⊥)
      → NoInclusive u xs
      → NoInclusive u (x ∷ xs)
  NoInclusive-more u x xs h k n c (inl (e, i)) p = h c i (ap (λ z. is_prefix (rel z u)) e ∙ p)
  NoInclusive-more u x xs h k n c (inr m) p = k n c m p

  Longest-more :
      (u : Bytes) (x : Entry) (xs : List Entry) (k : ℕ)
      → ((c : LocConf) → x.inclusive ≡ some c → is_prefix (rel x.name u) ≡ true → length x.name ≤ k)
      → Longest u k xs
      → Longest u k (x ∷ xs)
  Longest-more u x xs k h l n c (inl (e, i)) p =
      subst (λ z. length z ≤ k) e (h c i (ap (λ z. is_prefix (rel z u)) e ∙ p))
  Longest-more u x xs k h l n c (inr m) p = l n c m p

  -- an entry that the search passes
  Best-passed :
      (rv : Found) (u : Bytes) (x : Entry) (xs : List Entry) (r : Found)
      → is_same (rel x.name u) ≡ false
      → ((c : LocConf) → x.inclusive ≡ some c → is_prefix (rel x.name u) ≡ true → ⊥)
      → Best rv u xs r
      → Best rv u (x ∷ xs) r
  Best-passed rv u x xs r h k (at_name c e m) = at_name c e (inr m)
  Best-passed rv u x xs r h k (at_prefix n c e m p l w) =
      at_prefix n c e (inr m) p (Longest-more u x xs (length n) (λ d i q. absurd (k d i q)) l)
        (NoExact-more u x xs h w)
  Best-passed rv u x xs r h k (nowhere e l w) =
      nowhere e (NoInclusive-more u x xs k l) (NoExact-more u x xs h w)

  -- an inclusive entry whose name the request's goes on from
  Best-inside :
      (rv : Found) (u : Bytes) (x : Entry) (xs : List Entry) (r : Found) (c : LocConf)
      → All (Before x) xs
      → rel x.name u ≡ inside
      → x.inclusive ≡ some c
      → Best (again c) u xs r
      → Best rv u (x ∷ xs) r
  Best-inside rv u x xs r c a h i (at_name d e m) = at_name d e (inr m)
  Best-inside rv u x xs r c a h i (at_prefix n d e m p l w) =
      at_prefix n d e (inr m) p
        (Longest-more u x xs (length n)
          (λ d' i' q.
            let b = inclusive-Before x n d xs a m in
            let s = prefixes_nest x.name n u q p b in
            let (_, t, _) = length-rel x.name n in omega (arith, t s))
          l)
        (NoExact-more u x xs (ap is_same h) w)
  Best-inside rv u x xs r c a h i (nowhere e l w) =
      at_prefix x.name c e (inl (refl, i)) (ap is_prefix h)
        (Longest-more u x xs (length x.name) (λ d j q. omega arith) (λ n d m q. absurd (l n d m q)))
        (NoExact-more u x xs (ap is_same h) w)

  -- an entry of the request's name
  Best-same :
      (rv : Found) (u : Bytes) (x : Entry) (xs : List Entry) (e i : Option LocConf)
      → Full x
      → All (Before x) xs
      → rel x.name u ≡ same
      → x.exact ≡ e
      → x.inclusive ≡ i
      → Best rv u (x ∷ xs) (hit e i)
  Best-same rv u x xs (some c) i f a h p q = at_name c refl (inl (eq_of_same x.name u h, p))
  Best-same rv u x xs none none f a h p q = absurd (ground (arith, p, q))
  Best-same rv u x xs none (some c) f a h p q =
      let n : x.name ≡ u = eq_of_same x.name u h in
      at_prefix x.name c refl (inl (refl, q)) (ap is_prefix h)
        (λ m d k t. subst (λ z. length m ≤ length z) (sym n) (prefix-length m u t))
        λ d m. elim m [
          | inl (_, t) ↦ cc
          | inr k ↦ let b = exact-Before x u d xs a k in cc (ap is_before h)
        ]

  Best-step :
      (rv : Found) (u : Bytes) (x : Entry) (xs : List Entry)
      → Full x
      → All (Before x) xs
      → ((v : Found) → Best v u xs (scan v u xs))
      → (r : Rel) → rel x.name u ≡ r
      → Best rv u (x ∷ xs) (scan rv u (x ∷ xs))
  Best-step rv u x xs f o ih below e =
      rw (scan, e) (Best-passed rv u x xs _ (ap is_same e) (λ c i p. cc (ap is_prefix e)) (ih rv))
  Best-step rv u x xs f o ih above e =
      rw (scan, e) (Best-passed rv u x xs _ (ap is_same e) (λ c i p. cc (ap is_prefix e)) (ih rv))
  Best-step rv u x xs f o ih beyond e =
      rw (scan, e) (Best-passed rv u x xs _ (ap is_same e) (λ c i p. cc (ap is_prefix e)) (ih rv))
  Best-step rv u x xs f o ih same e =
      rw (scan, e) (Best-same rv u x xs x.exact x.inclusive f o e refl refl)
  Best-step rv u x xs f o ih inside e = elim (Option-cases x.inclusive) [
    | inl i ↦
        rw (scan, e)
          (subst (λ z. Best rv u (x ∷ xs) (scan (got rv z) u xs)) (sym i)
            (Best-passed rv u x xs _ (ap is_same e) (λ c j p. cc) (ih rv)))
    | inr (c, i) ↦
        rw (scan, e)
          (subst (λ z. Best rv u (x ∷ xs) (scan (got rv z) u xs)) (sym i)
            (Best-inside rv u x xs _ c o e i (ih (again c))))
  ]

  pub scan-Best :
      (u : Bytes) (xs : List Entry)
      → All Full xs
      → Ordered xs
      → (rv : Found) → Best rv u xs (scan rv u xs)
  scan-Best u [] f o rv = nowhere refl (λ n c m. absurd m) (λ c m. absurd m)
  scan-Best u (x ∷ xs) (fx, f) (ox, o) rv =
      Best-step rv u x xs fx ox (scan-Best u xs f o) (rel x.name u) refl

-- the same locations under the same names
pub record Keeps (xs zs : List Entry) : Type 0 where
  pub exact_to : (n : Bytes) (c : LocConf) → ExactIn n c zs → ExactIn n c xs
  pub exact_from : (n : Bytes) (c : LocConf) → ExactIn n c xs → ExactIn n c zs
  pub inclusive_to : (n : Bytes) (c : LocConf) → InclusiveIn n c zs → InclusiveIn n c xs
  pub inclusive_from : (n : Bytes) (c : LocConf) → InclusiveIn n c xs → InclusiveIn n c zs

module _ ⦃f : FileNames⦄ where
  -- the best of what keeps the locations is the best of them
  pub Keeps-Best :
      (rv : Found) (u : Bytes) (xs zs : List Entry) (r : Found)
      → Keeps xs zs
      → Best rv u zs r
      → Best rv u xs r
  Keeps-Best rv u xs zs r k (at_name c e m) = at_name c e (k.exact_to u c m)
  Keeps-Best rv u xs zs r k (at_prefix n c e m p l w) =
      at_prefix n c e (k.inclusive_to n c m) p (λ n' d i q. l n' d (k.inclusive_from n' d i) q)
        (λ d i. w d (k.exact_from u d i))
  Keeps-Best rv u xs zs r k (nowhere e l w) =
      nowhere e (λ n d i q. l n d (k.inclusive_from n d i) q) (λ d i. w d (k.exact_from u d i))
