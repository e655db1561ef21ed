-- ===== src/Map/Insert.antt =====
-- `ngx_map_insert` against the sorted list of the map's nodes.
use nginx_toolkit_module.Base.{
  Ordering, lt, eq, gt, ◌≡◌, refl, sym, ap, ◌∙◌, Bool, true, false, Option, none, some,
  if◌then◌else◌,
}
use nginx_toolkit_module.Map.{Cursor, MapNode, Map, Rbtree, find, delete, insert, link, items}
use nginx_toolkit_module.Map.Sorted.{choose, lookup_eq}
use nginx_toolkit_module.Map.Find.{rank, rank-IsOrder, IsValid, contents, value_at, get-contents}
use nginx_toolkit_module.Map.Update.{link-IsValid, contents-link, delete-IsValid, contents-delete}

-- what an insertion leaves under its key
abbrev pub kept {ℓ} : {V : Type ℓ} → Bool → V → Option V → Option V
kept covered value none = some value
kept covered value (some old) = if covered then some value else some old

choose_twice {ℓ} :
    {A : Type ℓ} (c : Ordering) (x y z : A) → choose c x (choose c y z) ≡ choose c x z
choose_twice lt x y z = refl
choose_twice eq x y z = refl
choose_twice gt x y z = refl

module _ {ℓ} {K V : Type ℓ} (rb : Rbtree (MapNode K V)) where
  deleted_absent : (m : Map K V) (key : K) → IsValid m → contents (delete rb m key) key ≡ none
  deleted_absent m key v =
      contents-delete rb m key key v ∙ rw ((rank-IsOrder m.hash m.cmp v.order).rank_refl key)

  -- Inserting under any key, covering or not, leaves a map in order.
  pub insert-IsValid :
      (m : Map K V) (key : K) (value : V) (covered : Bool)
      → IsValid m
      → IsValid (insert rb m key value covered)
  unfolding insert delete link
  insert-IsValid m key value covered v = go (find m key) covered (get-contents v key)
    where
      n : MapNode K V
      n = record { key = m.hash key; raw_key = key; value = value }

      go :
          (q : Option (Cursor (MapNode K V))) (c : Bool)
          → value_at q ≡ contents m key
          → IsValid (record m {
            root = elim q [
              | none ↦ (link rb m n).root
              | some p ↦ if c then (link rb (delete rb m key) n).root else m.root
            ];
          })
      go none c e = link-IsValid rb m n v refl (sym e)
      go (some p) true e =
          link-IsValid rb (delete rb m key) n (delete-IsValid rb m key v) refl
            (deleted_absent m key v)
      go (some p) false e = v

  -- After an insertion into a map in order, the map holds the new value under the key if the key
  -- was new or the insertion covers, and otherwise the old value; under every other key it holds
  -- what it held before.
  pub contents-insert :
      (m : Map K V) (key : K) (value : V) (covered : Bool) (j : K)
      → IsValid m
      → contents (insert rb m key value covered) j
        ≡ choose (rank m.hash m.cmp j key) (kept covered value (contents m key)) (contents m j)
  unfolding insert delete link
  contents-insert m key value covered j v = go (find m key) covered (get-contents v key)
    where
      n : MapNode K V
      n = record { key = m.hash key; raw_key = key; value = value }

      r : K → K → Ordering
      r = rank m.hash m.cmp

      go :
          (q : Option (Cursor (MapNode K V))) (c : Bool)
          → value_at q ≡ contents m key
          → contents
              (record m {
                root = elim q [
                  | none ↦ (link rb m n).root
                  | some p ↦ if c then (link rb (delete rb m key) n).root else m.root
                ];
              })
              j
            ≡ choose (r j key) (kept c value (contents m key)) (contents m j)
      go none c e =
          contents-link rb m n j v refl (sym e)
          ∙ ap (λ z. choose (r j key) (kept c value z) (contents m j)) e
      go (some p) true e =
          contents-link rb (delete rb m key) n j (delete-IsValid rb m key v) refl
            (deleted_absent m key v)
          ∙ ap (choose (r j key) (some value)) (contents-delete rb m key j v)
          ∙ choose_twice (r j key) (some value) none (contents m j)
          ∙ ap (λ z. choose (r j key) (kept true value z) (contents m j)) e
      go (some p) false e =
          lookup_eq (rank-IsOrder m.hash m.cmp v.order) key j (items m.root)
          ∙ ap (λ z. choose (r j key) z (contents m j)) (sym e)
          ∙ ap (λ z. choose (r j key) (kept false value z) (contents m j)) e
