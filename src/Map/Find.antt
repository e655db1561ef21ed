-- ===== src/Map/Find.antt =====
-- `ngx_map_find` against the sorted list of the map's nodes.
use nginx_toolkit_module.Base.{
  ℕ, Ordering, lt, gt, ◌≡◌, refl, sym, ap, ◌∙◌, subst, inl, inr, Option, none, some, List, [], ◌∷◌,
  ◌++◌, All, All-append, All-append_left, All-append_right, arith, ltb, if◌then◌else◌,
}
use nginx_toolkit_module.Map.{
  Tree, leaf, node, Crumb, from_left, from_right, Cursor, items, path_before, path_after, before,
  after, MapNode, Map, side, find_loop, find, empty_tree,
}
use nginx_toolkit_module.Map.Sorted.{
  IsOrder, Above, Below, Sorted, lookup, Above-trans, Below-trans, lookup-append_Below,
  Sorted-append, lookup_middle, Ordering-cases, lookup-Above,
}
use nginx_toolkit_module.Map.Walk.{fill, whole, items-whole, items-fill}

module _ {ℓ} {K : Type ℓ} (hash : K → ℕ) (cmp : K → K → Ordering) where
  -- the order of the keys: by hash, then by comparison
  abbrev pub rank : K → K → Ordering
  rank a b = if ltb (hash a) (hash b) then lt else if ltb (hash b) (hash a) then gt else cmp a b

  pub rank-IsOrder : IsOrder cmp → IsOrder rank
  rank-IsOrder o = record {
    rank_refl = λ a. ground (arith, o.rank_refl a);
    eq_of_rank = λ a b. ground (arith, o.eq_of_rank a b);
    lt_of_gt = λ a b. ground (arith, o.lt_of_gt a b);
    gt_of_lt = λ a b. ground (arith, o.gt_of_lt a b);
    lt_trans = λ a b c. ground (arith, o.lt_trans a b c);
  }

module _ {ℓ} {K V : Type ℓ} where
  -- `rn.key` is the hash of `raw_key`
  abbrev pub Keyed : (K → ℕ) → List (MapNode K V) → Type 0
  Keyed hash xs = All (λ x. x.key ≡ hash x.raw_key) xs

  -- A map in order: the nodes stand from left to right in the order of their keys, no key twice,
  -- and each carries its hash.
  pub record IsValid (m : Map K V) : Type ℓ where
    pub order : IsOrder m.cmp
    pub sorted : Sorted (rank m.hash m.cmp) (items m.root)
    pub keyed : Keyed m.hash (items m.root)

  abbrev pub value_at : Option (Cursor (MapNode K V)) → Option V
  value_at none = none
  value_at (some p) = some p.item.value

  -- the value that a search finds
  abbrev pub get : Map K V → K → Option V
  get m key = value_at (find m key)

  -- what the map holds under a key, by its list of nodes
  abbrev pub contents : Map K V → K → Option V
  contents m key = lookup (rank m.hash m.cmp) key (items m.root)

  -- A search's outcome: the one node with the key, in place in the tree, or its absence.
  abbrev pub Finds :
      (K → K → Ordering) → K → Tree (MapNode K V) → Option (Cursor (MapNode K V)) → Type ℓ
  Finds r key t none = lookup r key (items t) ≡ none
  Finds r key t (some p) = (p.item.raw_key ≡ key) × (whole p ≡ t)

side-rank {ℓ} :
    {K V : Type ℓ} (hash : K → ℕ) (cmp : K → K → Ordering) (key : K) (x : MapNode K V)
    → x.key ≡ hash x.raw_key
    → side cmp (hash key) key x ≡ rank hash cmp key x.raw_key
side-rank hash cmp key x e = rw e

module _ {ℓ} {K V : Type ℓ} (hash : K → ℕ) (cmp : K → K → Ordering) (o : IsOrder (rank hash cmp))
    (key : K) where
  find_loop-Finds :
      (path : List (Crumb (MapNode K V))) (t : Tree (MapNode K V))
      → Below (rank hash cmp) key (path_before path)
      → Above (rank hash cmp) key (path_after path)
      → Sorted (rank hash cmp) (items t)
      → Keyed hash (items t)
      → Finds (rank hash cmp) key (fill path t) (find_loop cmp (hash key) key path t)
  unfolding find_loop
  find_loop-Finds path leaf b a s k = rw (items-fill path leaf) (
      lookup-append_Below o key (path_before path) (path_after path) b
      ∙ lookup-Above o key (path_after path) a)
  find_loop-Finds path (node c l x r) b a s k =
      let (below, above, sl, sr) = Sorted-append o x (items l) (items r) s in
      let kl = All-append_left _ (items l) (x ∷ items r) k in
      let kr = All-append_right _ (items l) (x ∷ items r) k in
      let same = side-rank hash cmp key x kr.0 in
      elim (Ordering-cases (rank hash cmp key x.raw_key)) [
        | inl e ↦
            rw (same, e, find_loop)
              (find_loop-Finds (from_left c x r ∷ path) l b
                (
                  e,
                  All-append _ (items r) (path_after path)
                      (Above-trans o key x.raw_key (items r) e above) a,
                )
                sl kl)
        | inr (inl e) ↦ rw (same, e, find_loop) (sym (o.eq_of_rank key x.raw_key e), refl)
        | inr (inr e) ↦
            let up = o.lt_of_gt key x.raw_key e in
            rw (same, e, find_loop)
              (find_loop-Finds (from_right c l x ∷ path) r
                (All-append _ (path_before path) (items l ++ (x ∷ [])) b (
                  All-append _ (items l) (x ∷ []) (Below-trans o x.raw_key key (items l) up below)
                    (up, tt)))
                a sr kr.1)
      ]

module _ {ℓ} {K V : Type ℓ} {m : Map K V} (v : IsValid m) where
  -- In a map in order, ngx_map_find returns a node of the map's tree that has the key, or NULL
  -- where no node has it.
  pub find-Finds : (key : K) → Finds (rank m.hash m.cmp) key m.root (find m key)
  unfolding find
  find-Finds key = go m.root v.sorted v.keyed
    where
      o : IsOrder (rank m.hash m.cmp)
      o = rank-IsOrder m.hash m.cmp v.order

      go :
          (t : Tree (MapNode K V))
          → Sorted (rank m.hash m.cmp) (items t)
          → Keyed m.hash (items t)
          → Finds
              (rank m.hash m.cmp)
              key
              t
              (if empty_tree t then none else find_loop m.cmp (m.hash key) key [] t)
      go leaf s k = refl
      go (node c l x r) s k = find_loop-Finds m.hash m.cmp o key [] (node c l x r) tt tt s k

  -- a cursor into the map splits its list of nodes
  pub find-split :
      (key : K) (p : Cursor (MapNode K V))
      → find m key ≡ some p
      → (p.item.raw_key ≡ key) × (items m.root ≡ before p ++ (p.item ∷ after p))
  find-split key p e =
      let (k, w) = subst (Finds (rank m.hash m.cmp) key m.root) e (find-Finds key) in
      (k, ap items (sym w) ∙ items-whole p)

  -- In a map in order, the value that ngx_map_find finds under a key is the one that the list of
  -- the map's nodes holds under it.
  pub get-contents : (key : K) → get m key ≡ contents m key
  get-contents key = go (find m key) (find-Finds key)
    where
      o : IsOrder (rank m.hash m.cmp)
      o = rank-IsOrder m.hash m.cmp v.order

      go :
          (q : Option (Cursor (MapNode K V)))
          → Finds (rank m.hash m.cmp) key m.root q
          → value_at q ≡ contents m key
      go none e = sym e
      go (some p) (k, w) =
          let split = ap items (sym w) ∙ items-whole p in
          let s = subst (Sorted (rank m.hash m.cmp)) split v.sorted in
          sym (
            ap (lookup (rank m.hash m.cmp) key) split
            ∙ rw (← k) (lookup_middle o p.item (before p) (after p) s))
