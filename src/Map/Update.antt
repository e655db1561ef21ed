-- ===== src/Map/Update.antt =====
-- `ngx_map_insert` and `ngx_map_delete` against the sorted list of the map's nodes.
use nginx_toolkit_module.Base.{
  ℕ, Ordering, ◌≡◌, refl, sym, ap, ◌∙◌, subst, inl, inr, Option, none, some, List, [], ◌∷◌, ◌++◌,
  All-append, All-append_left, All-append_right, arith,
}
use nginx_toolkit_module.Map.{
  Tree, leaf, node, Cursor, items, before, after, MapNode, Map, Rbtree, side, insert_value, find,
  delete, link,
}
use nginx_toolkit_module.Map.Sorted.{
  choose, IsOrder, Sorted, lookup, place, Sorted-append, Ordering-cases, Sorted-place, lookup-place,
  place-split, place-append_left, place-append_Below, Sorted-unlink, lookup-unlink, lookup_eq,
  Below, Below-trans,
}
use nginx_toolkit_module.Map.Walk.{items-whole}
use nginx_toolkit_module.Map.Find.{
  rank, rank-IsOrder, Keyed, IsValid, contents, Finds, find-Finds, find-split,
}

module _ {ℓ} {K V : Type ℓ} where
  unlink-Keyed :
      (hash : K → ℕ) (x : MapNode K V) (xs ys : List (MapNode K V))
      → Keyed hash (xs ++ (x ∷ ys))
      → Keyed hash (xs ++ ys)
  unlink-Keyed hash x xs ys k =
      All-append _ xs ys (All-append_left _ xs (x ∷ ys) k) (All-append_right _ xs (x ∷ ys) k).1

  Keyed-place :
      (hash : K → ℕ) (r : K → K → Ordering) (n : MapNode K V) (xs : List (MapNode K V))
      → n.key ≡ hash n.raw_key
      → Keyed hash xs
      → Keyed hash (place r n xs)
  unfolding place
  Keyed-place hash r n [] e k = (e, tt)
  Keyed-place hash r n (x ∷ xs) e k = ground (arith, Keyed-place hash r n xs)

  Below-eq :
      (hash : K → ℕ) (cmp : K → K → Ordering) (n x : MapNode K V) (xs : List (MapNode K V))
      → n.raw_key ≡ x.raw_key
      → Below (rank hash cmp) x.raw_key xs
      → Below (rank hash cmp) n.raw_key xs
  Below-eq hash cmp n x xs e b = subst (λ k. Below (rank hash cmp) k xs) (sym e) b

  -- the descent puts the node in its place among the others
  items-insert_value :
      (hash : K → ℕ) (cmp : K → K → Ordering) (t : Tree (MapNode K V)) (n : MapNode K V)
      → IsOrder (rank hash cmp)
      → n.key ≡ hash n.raw_key
      → Sorted (rank hash cmp) (items t)
      → Keyed hash (items t)
      → items (insert_value cmp t n) ≡ place (rank hash cmp) n (items t)
  unfolding insert_value place
  items-insert_value hash cmp leaf n o e s k = refl
  items-insert_value hash cmp (node c l x r) n o e s k =
      let (below, above, sl, sr) = Sorted-append o x (items l) (items r) s in
      let kl = All-append_left _ (items l) (x ∷ items r) k in
      let kr = All-append_right _ (items l) (x ∷ items r) k in
      let same : side cmp n.key n.raw_key x ≡ rank hash cmp n.raw_key x.raw_key = rw (e, kr.0) in
      elim (Ordering-cases (rank hash cmp n.raw_key x.raw_key)) [
        | inl h ↦
            rw (same, h, insert_value)
              (ap (λ z. z ++ (x ∷ items r)) (items-insert_value hash cmp l n o e sl kl)
                ∙ sym (place-append_left o n x (items l) (items r) h))
        | inr (inl h) ↦
            let low = Below-eq hash cmp n x (items l) (o.eq_of_rank n.raw_key x.raw_key h) below in
            rw (same, h, insert_value)
              (sym (place-append_Below o n (items l) (x ∷ items r) low ∙ rw (h, place)))
        | inr (inr h) ↦
            let up = o.lt_of_gt n.raw_key x.raw_key h in
            let low = Below-trans o x.raw_key n.raw_key (items l) up below in
            rw (same, h, insert_value)
              (ap (λ z. items l ++ (x ∷ z)) (items-insert_value hash cmp r n o e sr kr.1)
                ∙ sym (place-append_Below o n (items l) (x ∷ items r) low ∙ rw (h, place)))
      ]

module _ {ℓ} {K V : Type ℓ} (rb : Rbtree (MapNode K V)) where
  -- the balanced tree after a node is linked, where its key is new
  pub items-link :
      (m : Map K V) (n : MapNode K V)
      → IsValid m
      → n.key ≡ m.hash n.raw_key
      → contents m n.raw_key ≡ none
      → items (link rb m n).root ≡ place (rank m.hash m.cmp) n (items m.root)
  unfolding link place
  items-link m n v e absent = go m.root v.sorted v.keyed absent
    where
      o : IsOrder (rank m.hash m.cmp)
      o = rank-IsOrder m.hash m.cmp v.order

      go :
          (t : Tree (MapNode K V))
          → Sorted (rank m.hash m.cmp) (items t)
          → Keyed m.hash (items t)
          → lookup (rank m.hash m.cmp) n.raw_key (items t) ≡ none
          → items (rb.insert (insert_value m.cmp) t n) ≡ place (rank m.hash m.cmp) n (items t)
      go leaf s k a = rb.items-insert_leaf _ n
      go (node c l x r) s k a =
          let (ys, zs, p) = place-split o n (items (node c l x r)) a in
          let q = items-insert_value m.hash m.cmp (node c l x r) n o e s k in
          rb.items-insert (insert_value m.cmp) (node c l x r) n ys zs (λ h. cc) (q ∙ p) ∙ sym p

  pub link-IsValid :
      (m : Map K V) (n : MapNode K V)
      → IsValid m
      → n.key ≡ m.hash n.raw_key
      → contents m n.raw_key ≡ none
      → IsValid (link rb m n)
  unfolding link
  link-IsValid m n v e a =
      let o = rank-IsOrder m.hash m.cmp v.order in
      let p = items-link m n v e a in
      record {
        order = v.order;
        sorted = rw p (Sorted-place o n (items m.root) v.sorted);
        keyed = rw p (Keyed-place m.hash (rank m.hash m.cmp) n (items m.root) e v.keyed);
      }

  pub contents-link :
      (m : Map K V) (n : MapNode K V) (j : K)
      → IsValid m
      → n.key ≡ m.hash n.raw_key
      → contents m n.raw_key ≡ none
      → contents (link rb m n) j
        ≡ choose (rank m.hash m.cmp j n.raw_key) (some n.value) (contents m j)
  unfolding link
  contents-link m n j v e a =
      rw (items-link m n v e a)
        (lookup-place (rank-IsOrder m.hash m.cmp v.order) j n (items m.root) a)

  abbrev deleted : Map K V → Option (Cursor (MapNode K V)) → Tree (MapNode K V)
  deleted m none = m.root
  deleted m (some p) = rb.delete p

  -- Deleting a key from a map in order leaves a map in order.
  pub delete-IsValid : (m : Map K V) (key : K) → IsValid m → IsValid (delete rb m key)
  unfolding delete
  delete-IsValid m key v = go (find m key) (find-split v key)
    where
      go :
          (q : Option (Cursor (MapNode K V)))
          → ((p : Cursor (MapNode K V))
              → q ≡ some p
              → (p.item.raw_key ≡ key) × (items m.root ≡ before p ++ (p.item ∷ after p)))
          → IsValid (record m { root = deleted m q })
      go none f = v
      go (some p) f =
          let (k, w) = f p refl in
          let o = rank-IsOrder m.hash m.cmp v.order in
          record {
            order = v.order;
            sorted =
                rw (rb.items-delete p)
                  (Sorted-unlink o p.item (before p) (after p) (rw w at v.sorted));
            keyed =
                rw (rb.items-delete p)
                  (unlink-Keyed m.hash p.item (before p) (after p) (rw w at v.keyed));
          }

  -- After a key is deleted from a map in order, the map holds nothing under it, and under every
  -- other key what it held before.
  pub contents-delete :
      (m : Map K V) (key j : K)
      → IsValid m
      → contents (delete rb m key) j ≡ choose (rank m.hash m.cmp j key) none (contents m j)
  unfolding delete
  contents-delete m key j v = go (find m key) (find-Finds v key)
    where
      r : K → K → Ordering
      r = rank m.hash m.cmp

      o : IsOrder (rank m.hash m.cmp)
      o = rank-IsOrder m.hash m.cmp v.order

      go :
          (q : Option (Cursor (MapNode K V)))
          → Finds (rank m.hash m.cmp) key m.root q
          → lookup (rank m.hash m.cmp) j (items (deleted m q))
            ≡ choose (rank m.hash m.cmp j key) none (contents m j)
      go none e = lookup_eq o key j (items m.root) ∙ ap (λ z. choose (r j key) z (contents m j)) e
      go (some p) (k, w) =
          let split = ap items (sym w) ∙ items-whole p in
          let s = subst (Sorted (rank m.hash m.cmp)) split v.sorted in
          ap (lookup r j) (rb.items-delete p)
          ∙ lookup-unlink o j p.item (before p) (after p) s
          ∙ ap (λ z. choose (r j z) none (lookup r j (before p ++ (p.item ∷ after p)))) k
          ∙ ap (λ z. choose (r j key) none (lookup r j z)) (sym split)
