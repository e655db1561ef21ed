-- ===== src/HttpDynamic/Search/Finish.antt =====
-- The end of a server's block: what its locations become, whatever sort and middle there are.
use nginx_toolkit_module.Base.{
  ℕ, ◌≡◌, refl, sym, ap, ◌∙◌, inl, inr, Bool, true, false, ◌||◌, Option, some, List, [], ◌∷◌, arith,
  All, All-imp, Bool-cases, if◌then◌else◌,
}
use nginx_toolkit_module.Text.{Bytes}
use nginx_toolkit_module.HttpDynamic.Location.{LocConf, Entry, is_some, entry_of}
use nginx_toolkit_module.HttpDynamic.Trees.{
  Tree, leaf, is_regex, is_exact, cmp_locations, declined, find_static_location,
}
use nginx_toolkit_module.HttpDynamic.Trees.Build.{Middle, leaf-Finds}
use nginx_toolkit_module.HttpDynamic.Trees.Nest.{Plain}
use nginx_toolkit_module.HttpDynamic.Trees.Best.{Best, Full, nowhere, Keeps-Best}
use nginx_toolkit_module.HttpDynamic.Trees.Join.{Pairwise, InOrder, NotTwice}
use nginx_toolkit_module.HttpDynamic.Trees.Whole.{joined_tree-Best}
use nginx_toolkit_module.HttpDynamic.Search.{
  Locations, exacts, init_locations, init_static_location_trees, finish,
}
use nginx_toolkit_module.HttpDynamic.Search.Sort.{QueueSort, Rearranges, Rearranges-All, filter}
use nginx_toolkit_module.HttpDynamic.Search.Order.{
  Clean, Le, Static, is_static, cmp_locations-IsOrder, split_regex-filter, regexes_alike,
  Le-InOrder,
}
use nginx_toolkit_module.HttpDynamic.Search.Kept.{
  All-filter, filter-All, All-imp_with, Pairwise-filter, Pairwise-imp, Rearranges-filter,
  Rearranges-NotTwice, Rearranges-Keeps,
}
use nginx_toolkit_module.HttpDynamic.Names.{FileNames}

-- the queue that add_location makes of locations, in their order
abbrev pub entries : List LocConf → List Entry
entries [] = []
entries (c ∷ cs) = entry_of c ∷ entries cs

abbrev pub statics : List LocConf → List Entry
statics cs = filter is_static (entries cs)

abbrev pub regexes : List LocConf → List LocConf
regexes [] = []
regexes (c ∷ cs) = if is_some c.regex then c ∷ regexes cs else regexes cs

abbrev pub somes : List LocConf → List (Option LocConf)
somes [] = []
somes (c ∷ cs) = some c ∷ somes cs

abbrev pub unfinished : List Entry → Locations
unfinished lqs = record { locations = some lqs; static_locations = leaf; regex_locations = [] }

-- what an entry of add_location is like
abbrev Made : Entry → Type 0
Made x = Full x × (is_regex x ≡ false → is_exact x ≡ is_some x.exact)

entry_of-Made : (c : LocConf) → Made (entry_of c)
unfolding entry_of
entry_of-Made c = elim (Bool-cases (c.exact_match || is_some c.regex)) [
  | inl e ↦ rw e (refl, λ r. ground arith)
  | inr e ↦ rw e (refl, λ r. ground arith)
]

entries-Made : (cs : List LocConf) → All Made (entries cs)
entries-Made [] = tt
entries-Made (c ∷ cs) = (entry_of-Made c, entries-Made cs)

entry_of-regex : (c : LocConf) → is_regex (entry_of c) ≡ is_some c.regex
unfolding entry_of
entry_of-regex c = elim (Bool-cases (c.exact_match || is_some c.regex)) [
  | inl e ↦ rw e refl
  | inr e ↦ rw e refl
]

entry_of-exact : (c : LocConf) → is_some c.regex ≡ true → (entry_of c).exact ≡ some c
unfolding entry_of
entry_of-exact c h = ground (arith, h)

exacts-regexes : (cs : List LocConf) → exacts (filter is_regex (entries cs)) ≡ somes (regexes cs)
exacts-regexes [] = refl
exacts-regexes (c ∷ cs) = elim (Bool-cases (is_some c.regex)) [
  | inl e ↦ rw (entry_of-regex c, e, entry_of-exact c e, exacts-regexes cs)
  | inr e ↦ rw (entry_of-regex c, e, exacts-regexes cs)
]

no_regex : (xs : List Entry) → filter is_regex xs ≡ [] → filter is_static xs ≡ xs
no_regex [] h = refl
no_regex (x ∷ xs) h = elim (Bool-cases (is_regex x)) [
  | inl e ↦ absurd (ground (arith, e, h))
  | inr e ↦ rw e (ap (λ z. x ∷ z) (no_regex xs (ground (arith, e, h))))
]

module _ ⦃f : FileNames⦄ where
  module _ (qs : QueueSort) (lqs : List Entry) (clean : All Clean lqs) where
    abbrev sorted_lqs : List Entry
    sorted_lqs = qs.sort cmp_locations lqs

    in_order : Pairwise Le sorted_lqs
    in_order = qs.sorted Clean cmp_locations lqs cmp_locations-IsOrder clean

    init_locations-filter : init_locations qs.sort true (unfinished lqs) ≡ (
      true,
      record {
        locations = some (filter is_static sorted_lqs);
        static_locations = leaf;
        regex_locations = exacts (filter is_regex sorted_lqs);
      },
    )
    unfolding init_locations
    init_locations-filter =
        ap of_split (split_regex-filter sorted_lqs in_order)
        ∙ by_regex (filter is_regex sorted_lqs) refl
      where
        of_split : List Entry × List Entry → Bool × Locations
        of_split p = elim p.1 [
          | [] ↦ (true, unfinished sorted_lqs)
          | x ∷ xs ↦ (
            true,
            record {
              locations = some p.0;
              static_locations = leaf;
              regex_locations = exacts (x ∷ xs);
            },
          )
        ]

        by_regex :
            (rx : List Entry)
            → filter is_regex sorted_lqs ≡ rx
            → of_split (filter is_static sorted_lqs, rx) ≡ (
              true,
              record {
                locations = some (filter is_static sorted_lqs);
                static_locations = leaf;
                regex_locations = exacts rx;
              },
            )
        by_regex [] e = ap (λ z. (true, unfinished z)) (sym (no_regex sorted_lqs e))
        by_regex (x ∷ xs) e = refl

  -- The trees of what is sorted and static.
  module _ (mid : Middle) (memory : ℕ → Bytes → Bool)
      (given : (n : ℕ) (x : Bytes) → memory n x ≡ true) where
    trees-Best :
        (st : List Entry) (rs : List (Option LocConf))
        → All Plain st
        → All Full st
        → Pairwise InOrder st
        → Pairwise NotTwice st
        → (t : Tree) × (init_static_location_trees mid.middle memory
              (record { locations = some st; static_locations = leaf; regex_locations = rs })
            ≡ (true, record { locations = some st; static_locations = t; regex_locations = rs }))
          × ((u : Bytes) → Best declined u st (find_static_location t u declined))
    unfolding init_static_location_trees
    trees-Best [] rs p f o n =
        (leaf, refl, λ u. nowhere (leaf-Finds [] u declined) (λ m c h. absurd h) (λ c h. absurd h))
    trees-Best (x ∷ xs) rs p f o n =
        let (zs, t, joined, made, best) = joined_tree-Best mid memory given x xs p f o n in
        (t, rw (init_static_location_trees, joined, made), best)

  -- The end of a server's block succeeds where memory is given, whatever the sort and the middle
  -- are, for locations with NUL-free names of which the static ones have names of less than 256
  -- bytes and are not there twice: the regular expressions are kept in the order of the
  -- configuration, and the tree finds for every name the best of the static locations.
  pub finish-Best :
      (qs : QueueSort) (mid : Middle) (memory : ℕ → Bytes → Bool) (cs : List LocConf)
      → ((n : ℕ) (x : Bytes) → memory n x ≡ true)
      → All Clean (entries cs)
      → All Plain (statics cs)
      → Pairwise NotTwice (statics cs)
      → (l : Locations) × (finish qs.sort true mid.middle memory (unfinished (entries cs))
          ≡ (true, l))
        × (l.regex_locations ≡ somes (regexes cs))
        × ((u : Bytes)
            → Best declined u (statics cs) (find_static_location l.static_locations u declined))
  unfolding finish
  finish-Best qs mid memory cs given clean plain once =
      let lqs = entries cs in
      let sorted = qs.sort cmp_locations lqs in
      let st = filter is_static sorted in
      let arranged : Rearranges (statics cs) st =
        Rearranges-filter is_static (qs.rearranges cmp_locations lqs) in
      let made =
        All-filter Made is_static sorted
          (Rearranges-All Made (qs.rearranges cmp_locations lqs) (entries-Made cs)) in
      let p = Rearranges-All Plain arranged plain in
      let static =
        All-imp_with (λ x. is_static x ≡ true) (λ x. Made x × Plain x) Static st
          (λ x s (m, q). let r : is_regex x ≡ false = ground arith in (q.1, r, m.1 r))
          (filter-All is_static sorted)
          (All-imp_with Made Plain (λ x. Made x × Plain x) st (λ x a b. (a, b)) made p) in
      let order =
        Pairwise-imp Static Le InOrder st Le-InOrder static
          (Pairwise-filter Le is_static sorted (in_order qs lqs clean)) in
      let rs = exacts (filter is_regex sorted) in
      let (t, e, best) =
        trees-Best mid memory given st rs p (All-imp st (λ x m. m.0) made) order
          (Rearranges-NotTwice arranged once) in
      (
        record { locations = some st; static_locations = t; regex_locations = rs },
        rw (finish, init_locations-filter qs lqs clean, e),
        ap exacts (qs.stable cmp_locations is_regex lqs regexes_alike) ∙ exacts-regexes cs,
        λ u.
            Keeps-Best declined u (statics cs) st (find_static_location t u declined)
              (Rearranges-Keeps arranged) (best u),
      )
