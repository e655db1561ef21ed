-- ===== src/HttpDynamic/Search/Order.antt =====
-- ngx_http_dynamic_core_cmp_locations as an order, and what a queue sorted by it is.
use nginx_toolkit_module.Base.{
  ◌≡◌, ◌≢◌, refl, sym, ap, ◌∙◌, inl, inr, Bool, true, false, not, ◌&&◌, ◌||◌, List, [], ◌∷◌, arith,
  Ordering, lt, eq, gt, if◌then◌else◌, All, Bool-cases, All-imp,
}
use nginx_toolkit_module.Text.{has}
use nginx_toolkit_module.HttpDynamic.Names.{
  Rel, rel, order, flip, rel-flip, filename_cmp-order, is_after, is_same, is_before, same, below,
  above, inside, beyond,
}
use nginx_toolkit_module.HttpDynamic.Names.Order.{not_after_trans}
use nginx_toolkit_module.HttpDynamic.Location.{Entry, is_some}
use nginx_toolkit_module.HttpDynamic.Trees.{is_regex, is_exact, cmp_locations}
use nginx_toolkit_module.HttpDynamic.Trees.Join.{Pairwise, InOrder}
use nginx_toolkit_module.HttpDynamic.Search.{split_regex}
use nginx_toolkit_module.HttpDynamic.Search.Sort.{filter, IsOrder}
use nginx_toolkit_module.HttpDynamic.Names.{FileNames}

-- the comparison by what it looks at: regular expressions, exact matches and names
abbrev verdict : Bool → Bool → Bool → Bool → Ordering → Ordering
verdict true false ex ey o = gt
verdict false true ex ey o = lt
verdict true true ex ey o = eq
verdict false false ex ey lt = lt
verdict false false ex ey gt = gt
verdict false false ex ey eq = if not ex && ey then gt else eq

abbrev pub Clean : Entry → Type 0
Clean x = has 0 x.name ≡ false

module _ ⦃f : FileNames⦄ where
  cmp-verdict :
      (x y : Entry)
      → Clean x
      → Clean y
      → cmp_locations x y
        ≡ verdict (is_regex x) (is_regex y) (is_exact x) (is_exact y) (order (rel x.name y.name))
  unfolding cmp_locations
  cmp-verdict x y h k =
      rw (cmp_locations, filename_cmp-order x.name y.name h k)
        (by_case (is_regex x) (is_regex y) (is_exact x) (is_exact y) (order (rel x.name y.name)))
    where
      by_case :
          (rx ry ex ey : Bool) (o : Ordering)
          → (if rx && not ry
              then gt
              else if not rx && ry
              then lt
              else if rx || ry
              then eq
              else elim o [ eq ↦ if not ex && ey then gt else eq | lt ↦ lt | gt ↦ gt ])
            ≡ verdict rx ry ex ey o
      by_case true true ex ey o = refl
      by_case true false ex ey o = refl
      by_case false true ex ey o = refl
      by_case false false ex ey lt = refl
      by_case false false ex ey gt = refl
      by_case false false ex ey eq = refl

verdict-total :
    (rx ry ex ey : Bool) (r : Rel)
    → verdict rx ry ex ey (order r) ≡ gt
    → verdict ry rx ey ex (order (flip r)) ≢ gt
verdict-total true true ex ey r h k = cc
verdict-total true false ex ey r h k = cc
verdict-total false true ex ey r h k = cc
verdict-total false false ex ey below h k = cc
verdict-total false false ex ey above h k = cc
verdict-total false false ex ey inside h k = cc
verdict-total false false ex ey beyond h k = cc
verdict-total false false ex ey same h k = ground arith

verdict-not_after :
    (ex ey : Bool) (r : Rel) → verdict false false ex ey (order r) ≢ gt → is_after r ≡ false
verdict-not_after ex ey below h = refl
verdict-not_after ex ey above h = absurd (h refl)
verdict-not_after ex ey inside h = refl
verdict-not_after ex ey beyond h = absurd (h refl)
verdict-not_after ex ey same h = refl

verdict-tie :
    (ex ey : Bool) (r : Rel)
    → verdict false false ex ey (order r) ≢ gt
    → is_same r ≡ true
    → (not ex && ey) ≡ false
verdict-tie ex ey below h e = absurd (cc)
verdict-tie ex ey above h e = absurd (cc)
verdict-tie ex ey inside h e = absurd (cc)
verdict-tie ex ey beyond h e = absurd (cc)
verdict-tie false false same h e = refl
verdict-tie false true same h e = absurd (h refl)
verdict-tie true ey same h e = refl

verdict-le :
    (ex ey : Bool) (r : Rel)
    → is_after r ≡ false
    → (is_same r ≡ true → (not ex && ey) ≡ false)
    → verdict false false ex ey (order r) ≢ gt
verdict-le ex ey below h k e = cc
verdict-le ex ey above h k e = cc
verdict-le ex ey inside h k e = cc
verdict-le ex ey beyond h k e = cc
verdict-le false false same h k e = cc
verdict-le false true same h k e = cc (k refl)
verdict-le true ey same h k e = cc

module _ ⦃f : FileNames⦄ where
  verdict_trans :
      (rx ry rz : Bool) (x y z : Entry)
      → verdict rx ry (is_exact x) (is_exact y) (order (rel x.name y.name)) ≢ gt
      → verdict ry rz (is_exact y) (is_exact z) (order (rel y.name z.name)) ≢ gt
      → verdict rx rz (is_exact x) (is_exact z) (order (rel x.name z.name)) ≢ gt
  verdict_trans true true true x y z h k e = cc
  verdict_trans true true false x y z h k e = k refl
  verdict_trans true false rz x y z h k e = h refl
  verdict_trans false ry true x y z h k e = cc
  verdict_trans false true false x y z h k e = k refl
  verdict_trans false false false x y z h k e =
      let (a, b) =
        not_after_trans x.name y.name z.name
          (verdict-not_after (is_exact x) (is_exact y) (rel x.name y.name) h)
          (verdict-not_after (is_exact y) (is_exact z) (rel y.name z.name) k) in
      verdict-le (is_exact x) (is_exact z) (rel x.name z.name) a
        (λ s.
          let (s1, s2) = b s in
          through (is_exact x) (is_exact y) (is_exact z)
            (verdict-tie (is_exact x) (is_exact y) (rel x.name y.name) h s1)
            (verdict-tie (is_exact y) (is_exact z) (rel y.name z.name) k s2))
        e
    where
      through :
          (ex ey ez : Bool)
          → (not ex && ey) ≡ false
          → (not ey && ez) ≡ false
          → (not ex && ez) ≡ false
      through ex ey ez h k = ground arith

  pub cmp_locations-IsOrder : IsOrder Clean cmp_locations
  cmp_locations-IsOrder = record {
    total = λ x y a b h k.
        verdict-total (is_regex x) (is_regex y) (is_exact x) (is_exact y) (rel x.name y.name)
          (sym (cmp-verdict x y a b) ∙ h)
          (ap (λ r. verdict (is_regex y) (is_regex x) (is_exact y) (is_exact x) (order r))
              (sym (rel-flip x.name y.name))
            ∙ sym (cmp-verdict y x b a)
            ∙ k);
    trans = λ x y z a b c h k e.
        verdict_trans (is_regex x) (is_regex y) (is_regex z) x y z
          (λ g. h (cmp-verdict x y a b ∙ g)) (λ g. k (cmp-verdict y z b c ∙ g))
          (sym (cmp-verdict x z a c) ∙ e);
  }

-- Of a queue in order, the entries before the regular expressions and those from them on.
abbrev pub is_static : Entry → Bool
is_static x = not (is_regex x)

module _ ⦃f : FileNames⦄ where
  abbrev pub Le : Entry → Entry → Type 0
  Le x y = cmp_locations x y ≢ gt

  regex_first : (x y : Entry) → Le x y → is_regex x ≡ true → is_regex y ≡ true
  unfolding cmp_locations
  regex_first x y h r = elim (Bool-cases (is_regex y)) [
    | inl e ↦ e
    | inr e ↦ absurd (h (rw (cmp_locations, r, e)))
  ]

all_regex :
    (xs : List Entry)
    → All (λ y. is_regex y ≡ true) xs
    → (filter is_static xs ≡ []) × (filter is_regex xs ≡ xs)
all_regex [] h = (refl, refl)
all_regex (x ∷ xs) (e, h) = let (a, b) = all_regex xs h in (ground (arith, a), ground (arith, b))

module _ ⦃f : FileNames⦄ where
  pub split_regex-filter :
      (xs : List Entry)
      → Pairwise Le xs
      → split_regex xs ≡ (filter is_static xs, filter is_regex xs)
  unfolding split_regex
  split_regex-filter [] h = refl
  split_regex-filter (x ∷ xs) (a, h) = elim (Bool-cases (is_regex x)) [
    | inl e ↦
        let (s, r) = all_regex xs (All-imp xs (λ y l. regex_first x y l e) a) in
        rw (split_regex, e, s, r)
    | inr e ↦ rw (split_regex, e, split_regex-filter xs h)
  ]

  pub regexes_alike : (x y : Entry) → is_regex x ≡ true → is_regex y ≡ true → cmp_locations x y ≡ eq
  unfolding cmp_locations
  regexes_alike x y h k = rw (cmp_locations, h, k)

-- an entry that add_location made of a location that is no regular expression
abbrev pub Static : Entry → Type 0
Static x = Clean x × (is_regex x ≡ false) × (is_exact x ≡ is_some x.exact)

verdict-InOrder :
    (a b : Bool) (r : Rel)
    → is_after r ≡ false
    → (is_same r ≡ true → (not a && b) ≡ false)
    → (is_before r || is_same r && (a || not b)) ≡ true
verdict-InOrder a b below h k = refl
verdict-InOrder a b above h k = cc
verdict-InOrder a b inside h k = refl
verdict-InOrder a b beyond h k = cc
verdict-InOrder a b same h k = ground (arith, k refl)

module _ ⦃f : FileNames⦄ where
  pub Le-InOrder : (x y : Entry) → Static x → Static y → Le x y → InOrder x y
  Le-InOrder x y (cx, sx, ex) (cy, sy, ey) h =
      let r = rel x.name y.name in
      let v : verdict false false (is_some x.exact) (is_some y.exact) (order r) ≢ gt = λ g. h (
        cmp-verdict x y cx cy
        ∙ ap (λ z. verdict z (is_regex y) (is_exact x) (is_exact y) (order r)) sx
        ∙ ap (λ z. verdict false z (is_exact x) (is_exact y) (order r)) sy
        ∙ ap (λ z. verdict false false z (is_exact y) (order r)) ex
        ∙ ap (λ z. verdict false false (is_some x.exact) z (order r)) ey
        ∙ g) in
      verdict-InOrder (is_some x.exact) (is_some y.exact) r
        (verdict-not_after (is_some x.exact) (is_some y.exact) r v)
        (verdict-tie (is_some x.exact) (is_some y.exact) r v)
