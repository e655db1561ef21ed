-- ===== src/HttpDynamic/Trees/Whole.antt =====
-- From the joined entries to the tree, with as many rounds as there are entries.
use nginx_toolkit_module.Base.{
  ℕ, suc, ◌<◌, ◌≡◌, ◌≢◌, refl, sym, ap, ◌∙◌, subst, inl, inr, Bool, true, Option, some, List, [],
  ◌∷◌, arith, length, length-append, All, Option-cases, Bool-cases,
}
use nginx_toolkit_module.Text.{Bytes}
use nginx_toolkit_module.HttpDynamic.Names.{rel, is_prefix}
use nginx_toolkit_module.HttpDynamic.Location.{Entry, is_some}
use nginx_toolkit_module.HttpDynamic.Trees.{
  Queue, nil, cons, Tree, size, create_list, create_tree, declined, find_static_location,
  join_exact_locations,
}
use nginx_toolkit_module.HttpDynamic.Trees.Flat.{flatten, count, scan}
use nginx_toolkit_module.HttpDynamic.Trees.Build.{Middle, Built, create_tree-Built}
use nginx_toolkit_module.HttpDynamic.Trees.Nest.{Ordered, Plain, Begins, create_list-Good}
use nginx_toolkit_module.HttpDynamic.Trees.Best.{
  Best, Full, scan-Best, Keeps, Keeps-Best, ExactIn, InclusiveIn,
}
use nginx_toolkit_module.HttpDynamic.Trees.Join.{Pairwise, InOrder, NotTwice, join_from-Joins}
use nginx_toolkit_module.HttpDynamic.Names.{FileNames}

count-flatten : (q : Queue) → count q ≡ length (flatten q)
count-flatten nil = refl
count-flatten (cons x list rest) =
    omega
      (arith, count-flatten list, count-flatten rest, length-append (flatten list) (flatten rest))

module _ ⦃f : FileNames⦄ where
  Begins-nil : (xs : List Entry) → All (Begins []) xs
  Begins-nil [] = tt
  Begins-nil (x ∷ xs) = (of_nil x.name, Begins-nil xs)
    where
      of_nil : (n : Bytes) → is_prefix (rel [] n) ≡ true
      of_nil [] = refl
      of_nil (y ∷ ys) = refl

  create_list-size :
      (fuel : ℕ) (x : Entry) (xs : List Entry) → 0 < size (create_list (suc fuel) (x ∷ xs))
  unfolding create_list
  create_list-size fuel x xs = elim (Bool-cases (is_some x.inclusive)) [
    | inl e ↦ rw e (omega arith)
    | inr e ↦ rw e (omega arith)
  ]

Keeps-entries : (x : Entry) (xs zs : List Entry) → Full x → Keeps (x ∷ xs) zs → zs ≢ []
Keeps-entries x xs zs h k e = elim (Option-cases x.exact) [
  | inr (c, i) ↦ absurd (subst (λ z. ExactIn x.name c z) e (k.exact_from x.name c (inl (refl, i))))
  | inl a ↦ elim (Option-cases x.inclusive) [
    | inr (c, i) ↦
        absurd (subst (λ z. InclusiveIn x.name c z) e (k.inclusive_from x.name c (inl (refl, i))))
    | inl b ↦ absurd (ground (arith, a, b))
  ]
]

module _ ⦃f : FileNames⦄ where
  module _ (mid : Middle) (memory : ℕ → Bytes → Bool)
      (given : (n : ℕ) (x : Bytes) → memory n x ≡ true) where
    abbrev pub tree_of : List Entry → Option Tree
    tree_of zs = create_tree mid.middle memory (length zs) 0 (create_list (length zs) zs)

    pub tree_of-Best :
        (zs : List Entry)
        → zs ≢ []
        → All Plain zs
        → All Full zs
        → Ordered zs
        → (t : Tree) × (tree_of zs ≡ some t)
          × ((u : Bytes) → Best declined u zs (find_static_location t u declined))
    unfolding Built
    tree_of-Best [] h p f o = absurd (h refl)
    tree_of-Best (x ∷ xs) h p f o =
        let zs = x ∷ xs in
        let q = create_list (length zs) zs in
        let (good, flat) = create_list-Good (length zs) [] zs (omega arith) p (Begins-nil zs) o in
        let n : count q ≡ length zs = count-flatten q ∙ ap length flat in
        let (t, made, finds) =
          create_tree-Built mid memory given (length zs) [] q (omega (arith, n))
            (create_list-size (length xs) x xs) good in
        (
          t,
          made,
          λ u.
              subst (Best declined u zs) (sym (finds u declined ∙ ap (scan declined u) flat))
                (scan-Best u zs f o declined),
        )

    -- the same from the sorted entries on
    pub joined_tree-Best :
        (x : Entry) (xs : List Entry)
        → All Plain (x ∷ xs)
        → All Full (x ∷ xs)
        → Pairwise InOrder (x ∷ xs)
        → Pairwise NotTwice (x ∷ xs)
        → (zs : List Entry) × (t : Tree) × (join_exact_locations (x ∷ xs) ≡ some zs)
          × (tree_of zs ≡ some t)
          × ((u : Bytes) → Best declined u (x ∷ xs) (find_static_location t u declined))
    unfolding join_exact_locations
    joined_tree-Best x xs p f o n =
        let j = join_from-Joins x xs p f o n in
        let (t, made, best) =
          tree_of-Best j.entries (Keeps-entries x xs j.entries f.0 j.keeps) j.plain j.full
            j.ordered in
        (
          j.entries,
          t,
          j.made,
          made,
          λ u.
              Keeps-Best declined u (x ∷ xs) j.entries (find_static_location t u declined) j.keeps
                (best u),
        )
