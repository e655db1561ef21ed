-- ===== src/HttpDynamic/Trees/Nest.antt =====
-- Entries put into the lists of the entries whose names they go on from.
use nginx_toolkit_module.Base.{
  ℕ, zero, suc, ◌+◌, ◌<◌, ◌≤◌, ◌≡◌, refl, sym, ap, ◌∙◌, subst, inl, inr, true, false, List, [], ◌∷◌,
  ◌++◌, ◌^◌, arith, length, Bool-cases, drop, length-append, ltb, if_true, if_false, All,
  All-append_left, All-append_right, All-imp, length-drop,
}
use nginx_toolkit_module.Text.{Bytes, has}
use nginx_toolkit_module.HttpDynamic.Names.{
  below, inside, rel, is_below, is_before, is_prefix, filename_cmp, filename_cmp-cut, lesser,
  length-rel,
}
use nginx_toolkit_module.HttpDynamic.Names.Order.{below_trans}
use nginx_toolkit_module.HttpDynamic.Location.{Entry, is_some}
use nginx_toolkit_module.HttpDynamic.Trees.{goes_on, span, create_list}
use nginx_toolkit_module.HttpDynamic.Trees.Flat.{flatten, Apart, Good}
use nginx_toolkit_module.HttpDynamic.Trees.Correct.{append-drop}
use nginx_toolkit_module.HttpDynamic.Names.{FileNames}

module _ ⦃f : FileNames⦄ where
  -- names in order, each once
  abbrev pub Before : Entry → Entry → Type 0
  Before x y = is_before (rel x.name y.name) ≡ true

  abbrev pub Ordered : List Entry → Type 0
  Ordered [] = Unit
  Ordered (x ∷ xs) = All (Before x) xs × Ordered xs

-- names of C, of less than 256 bytes
abbrev pub Plain : Entry → Type 0
Plain x = (length x.name < 2 ^ 8) × (has 0 x.name ≡ false)

module _ ⦃f : FileNames⦄ where
  abbrev pub Begins : Bytes → Entry → Type 0
  Begins p x = is_prefix (rel p x.name) ≡ true

  pub goes_on-Begins :
      (name : Bytes) (x : Entry)
      → has 0 x.name ≡ false
      → goes_on name x ≡ is_prefix (rel name x.name)
  goes_on-Begins name x h = elim (Bool-cases (ltb (length x.name) (length name))) [
    | inl short ↦ let (a, b, c) = length-rel name x.name in ground (arith, a, b)
    | inr long ↦
        let l : lesser (length name) (length x.name) ≡ length name = ground arith in
        let e = ap (filename_cmp name x.name) (sym l) ∙ filename_cmp-cut name x.name h in
        let (a, b, c) = length-rel name x.name in ground (arith, e, c)
  ]

  Ordered-append : (xs ys : List Entry) → Ordered (xs ++ ys) → Ordered xs × Ordered ys
  Ordered-append [] ys h = (tt, h)
  Ordered-append (x ∷ xs) ys (a, h) =
      let (b, c) = Ordered-append xs ys h in ((All-append_left (Before x) xs ys a, b), c)

  -- Of the entries behind `x`, in order, those ahead go on from it, and the others are below.
  record Spans (x : Entry) (xs inner outer : List Entry) : Type 0 where
    whole : xs ≡ inner ++ outer
    within : All (λ y. rel x.name y.name ≡ inside) inner
    without : All (λ y. rel x.name y.name ≡ below) outer

  span-Spans :
      (x : Entry) (xs : List Entry)
      → All Plain xs
      → All (Before x) xs
      → Ordered xs
      → Spans x xs (span x.name xs).0 (span x.name xs).1
  unfolding span
  span-Spans x [] p b o = record { whole = refl; within = tt; without = tt }
  span-Spans x (y ∷ ys) (py, p) (by, b) (oy, o) =
      let g = goes_on-Begins x.name y py.1 in
      let k = span-Spans x ys p b o in
      elim (Bool-cases (goes_on x.name y)) [
        | inl t ↦ rw t (record {
          whole = ap (λ z. y ∷ z) k.whole;
          within = (ground arith, k.within);
          without = k.without;
        })
        | inr f ↦
            let here : rel x.name y.name ≡ below = ground arith in
            rw f (record {
              whole = refl;
              within = tt;
              without = (here, All-imp ys (λ z e. below_trans x.name y.name z.name here e) oy);
            })
      ]

has-drop : (c n : ℕ) (xs : Bytes) → has c xs ≡ false → has c (drop n xs) ≡ false
has-drop c zero xs h = h
has-drop c (suc n) [] h = refl
has-drop c (suc n) (x ∷ xs) h = has-drop c n xs (ground arith)

module _ ⦃f : FileNames⦄ where
  -- what is behind the prefix
  suffix :
      (p : Bytes) (x : Entry)
      → Plain x
      → Begins p x
      → (s : Bytes) × (x.name ≡ p ++ s) × (length s < 2 ^ 8) × (has 0 s ≡ false)
  suffix p x (short, clean) b = (
    drop (length p) x.name,
    sym (append-drop p x.name b),
    omega (arith, short, length-drop (length p) x.name),
    has-drop 0 (length p) x.name clean,
  )

  pub create_list-Good :
      (fuel : ℕ) (p : Bytes) (xs : List Entry)
      → length xs ≤ fuel
      → All Plain xs
      → All (Begins p) xs
      → Ordered xs
      → Good p (create_list fuel xs) × (flatten (create_list fuel xs) ≡ xs)
  unfolding create_list
  create_list-Good zero p [] h a b o = (tt, refl)
  create_list-Good zero p (x ∷ xs) h a b o = absurd (omega arith)
  create_list-Good (suc fuel) p [] h a b o = (tt, refl)
  create_list-Good (suc fuel) p (x ∷ xs) h (ax, a) (bx, b) (ox, o) =
      elim (Bool-cases (is_some x.inclusive)) [
        | inr bare ↦
            let (g, f) = create_list-Good fuel p xs (omega arith) a b o in
            rw bare (
              (
                suffix p x ax bx,
                λ _. refl,
                tt,
                tt,
                subst (All (Apart x)) (sym f) (All-imp xs (λ z e. if_false _ _ bare ∙ e) ox),
                g,
              ),
              ap (λ z. x ∷ z) f,
            )
        | inl full ↦
            let inner = (span x.name xs).0 in
            let outer = (span x.name xs).1 in
            let k = span-Spans x xs a ox o in
            let n : length xs ≡ length inner + length outer =
              ap length k.whole ∙ length-append inner outer in
            let pl : All Plain (inner ++ outer) = subst (All Plain) k.whole a in
            let bg : All (Begins p) (inner ++ outer) = subst (All (Begins p)) k.whole b in
            let (oi, oo) = Ordered-append inner outer (subst Ordered k.whole o) in
            let (g, f) =
              create_list-Good fuel x.name inner (omega (arith, n))
                (All-append_left Plain inner outer pl)
                (All-imp inner (λ y e. ap is_prefix e) k.within) oi in
            let (g', f') =
              create_list-Good fuel p outer (omega (arith, n))
                (All-append_right Plain inner outer pl) (All-append_right (Begins p) inner outer bg)
                oo in
            rw full (
              (
                suffix p x ax bx,
                λ e. absurd (cc),
                subst (All (λ y. rel x.name y.name ≡ inside)) (sym f) k.within,
                g,
                subst (All (Apart x)) (sym f')
                    (All-imp outer (λ z e. if_true _ _ full ∙ ap is_below e) k.without),
                g',
              ),
              ap (λ z. x ∷ (z ++ flatten (create_list fuel outer))) f
                  ∙ ap (λ z. x ∷ (inner ++ z)) f'
                  ∙ ap (λ z. x ∷ z) (sym k.whole),
            )
      ]
