-- ===== src/Map.antt =====
-- ngx_map.h and ngx_map.c: a map over nginx's red-black tree, ordered by the hash of the key and,
-- where two hashes agree, by the comparison of the raw keys.
-- A pointer to a node that is linked in the tree is a `Cursor`: the node's subtree with the way
-- up to the root, which is what `left`, `right` and `parent` lead to.
-- The balancing itself (ngx_rbtree_insert, ngx_rbtree_delete) is nginx's: the parameter `Rbtree`.
pub mod Sorted
pub mod Find
pub mod Update
pub mod Insert
pub mod Keys
pub mod UintMap
pub mod Functions
mod Tests
pub mod Walk
use nginx_toolkit_module.Base.{
  ℕ, zero, suc, Ordering, lt, eq, gt, ◌≡◌, ◌≢◌, Bool, true, false, Option, none, some, List, [],
  ◌∷◌, ◌++◌, ltb, if◌then◌else◌,
}

pub data Color : Type 0 where
  red black : Color

-- `leaf` is the sentinel
pub data Tree {ℓ} (N : Type ℓ) : Type ℓ where
  leaf : Tree N
  node : Color → Tree N → N → Tree N → Tree N

-- `p->parent`, and on which side of it `p` hangs
pub data Crumb {ℓ} (N : Type ℓ) : Type ℓ where
  from_left : Color → N → Tree N → Crumb N
  from_right : Color → Tree N → N → Crumb N

pub record Cursor {ℓ} (N : Type ℓ) : Type ℓ where
  pub color : Color
  pub left : Tree N
  pub item : N
  pub right : Tree N
  pub path : List (Crumb N)

-- `value` is the structure that the ngx_map_node_t is embedded in
pub record MapNode {ℓ κ} (K : Type ℓ) (V : Type κ) : Type (ℓ ⊔ κ) where
  pub key : ℕ
  pub raw_key : K
  pub value : V

pub record Map {ℓ κ} (K : Type ℓ) (V : Type κ) : Type (ℓ ⊔ κ) where
  pub root : Tree (MapNode K V)
  pub hash : K → ℕ
  pub cmp : K → K → Ordering

module _ {ℓ} {N : Type ℓ} where
  -- the nodes from left to right
  abbrev pub items : Tree N → List N
  items leaf = []
  items (node c l x r) = items l ++ (x ∷ items r)

  -- what stands left of a subtree, and right of it
  abbrev pub path_before : List (Crumb N) → List N
  path_before [] = []
  path_before (from_left c x r ∷ path) = path_before path
  path_before (from_right c l x ∷ path) = path_before path ++ (items l ++ (x ∷ []))

  abbrev pub path_after : List (Crumb N) → List N
  path_after [] = []
  path_after (from_left c x r ∷ path) = x ∷ (items r ++ path_after path)
  path_after (from_right c l x ∷ path) = path_after path

  abbrev pub before : Cursor N → List N
  before p = path_before p.path ++ items p.left

  abbrev pub after : Cursor N → List N
  after p = items p.right ++ path_after p.path

-- ngx_rbtree_insert and ngx_rbtree_delete of nginx. An insertion into an empty tree makes the
-- node the root; otherwise it calls the tree's insertion function on the root and then rotates,
-- and a deletion unlinks the node and rotates: rotations keep the order from left to right.
pub record Rbtree {ℓ} (N : Type ℓ) : Type ℓ where
  pub insert : (Tree N → N → Tree N) → Tree N → N → Tree N
  pub delete : Cursor N → Tree N
  pub items-insert_leaf : (f : Tree N → N → Tree N) (n : N) → items (insert f leaf n) ≡ n ∷ []
  pub items-insert :
      (f : Tree N → N → Tree N) (t : Tree N) (n : N) (xs ys : List N)
      → t ≢ leaf
      → items (f t n) ≡ xs ++ (n ∷ ys)
      → items (insert f t n) ≡ xs ++ (n ∷ ys)
  pub items-delete : (p : Cursor N) → items (delete p) ≡ before p ++ after p

module _ {ℓ} {N : Type ℓ} where
  -- `ngx_map_begin`'s loop, from the node with the fields given: down to the left
  unfoldable pub leftmost : Color → Tree N → N → Tree N → List (Crumb N) → Cursor N
  leftmost c leaf x r path = record { color = c; left = leaf; item = x; right = r; path = path }
  leftmost c (node c' l' x' r') x r path = leftmost c' l' x' r' (from_left c x r ∷ path)

  unfoldable pub rightmost : Color → Tree N → N → Tree N → List (Crumb N) → Cursor N
  rightmost c l x leaf path = record { color = c; left = l; item = x; right = leaf; path = path }
  rightmost c l x (node c' l' x' r') path = rightmost c' l' x' r' (from_right c l x ∷ path)

  -- The loop of `ngx_map_next` that climbs while `p` is a right child. The subtree that it has
  -- climbed out of is an argument, since it is the parent's child.
  unfoldable pub climb_right : Tree N → List (Crumb N) → Option (Cursor N)
  climb_right t [] = none
  climb_right t (from_left c x r ∷ path) =
      some (record { color = c; left = t; item = x; right = r; path = path })
  climb_right t (from_right c l x ∷ path) = climb_right (node c l x t) path

  unfoldable pub climb_left : Tree N → List (Crumb N) → Option (Cursor N)
  climb_left t [] = none
  climb_left t (from_right c l x ∷ path) =
      some (record { color = c; left = l; item = x; right = t; path = path })
  climb_left t (from_left c x r ∷ path) = climb_left (node c t x r) path

  next_from : Color → Tree N → N → Tree N → List (Crumb N) → Option (Cursor N)
  next_from c l x leaf path = climb_right (node c l x leaf) path
  next_from c l x (node c' l' x' r') path = some (leftmost c' l' x' r' (from_right c l x ∷ path))

  unfoldable pub next : Cursor N → Option (Cursor N)
  unfolding next_from
  next p = next_from p.color p.left p.item p.right p.path

  prev_from : Color → Tree N → N → Tree N → List (Crumb N) → Option (Cursor N)
  prev_from c leaf x r path = climb_left (node c leaf x r) path
  prev_from c (node c' l' x' r') x r path = some (rightmost c' l' x' r' (from_left c x r ∷ path))

  unfoldable pub prev : Cursor N → Option (Cursor N)
  unfolding prev_from
  prev p = prev_from p.color p.left p.item p.right p.path

  begin_tree : Tree N → Option (Cursor N)
  begin_tree leaf = none
  begin_tree (node c l x r) = some (leftmost c l x r [])

  rbegin_tree : Tree N → Option (Cursor N)
  rbegin_tree leaf = none
  rbegin_tree (node c l x r) = some (rightmost c l x r [])

  abbrev pub walk_on : N → Option (List N) → Option (List N)
  walk_on x none = none
  walk_on x (some xs) = some (x ∷ xs)

  -- `for (node = ngx_map_begin(map); node; node = ngx_map_next(node))`, with the nodes visited;
  -- `none` where the fuel runs out
  unfoldable pub walk : ℕ → Option (Cursor N) → Option (List N)
  walk fuel none = some []
  walk zero (some p) = none
  walk (suc fuel) (some p) = walk_on p.item (walk fuel (next p))

module _ {ℓ κ} {K : Type ℓ} {V : Type κ} where
  -- the three-way test of the insertion and of the search
  abbrev pub side : (K → K → Ordering) → ℕ → K → MapNode K V → Ordering
  side cmp key raw_key x =
      if ltb key x.key then lt else if ltb x.key key then gt else cmp raw_key x.raw_key

  -- `ngx_map_rbtree_insert_value`: a red node takes the sentinel's place at the end of the way
  -- down; a duplicate leaves the tree alone.
  unfoldable pub insert_value :
      (K → K → Ordering) → Tree (MapNode K V) → MapNode K V → Tree (MapNode K V)
  insert_value cmp leaf n = node red leaf n leaf
  insert_value cmp (node c l x r) n = elim (side cmp n.key n.raw_key x) [
    | lt ↦ node c (insert_value cmp l n) x r
    | gt ↦ node c l x (insert_value cmp r n)
    | eq ↦ node c l x r
  ]

  unfoldable pub init : (K → ℕ) → (K → K → Ordering) → Map K V
  init hash cmp = record { root = leaf; hash = hash; cmp = cmp }

  abbrev pub empty_tree : Tree (MapNode K V) → Bool
  empty_tree leaf = true
  empty_tree (node c l x r) = false

  -- the macro `ngx_map_empty`
  unfoldable pub empty : Map K V → Bool
  empty m = empty_tree m.root

  unfoldable pub begin : Map K V → Option (Cursor (MapNode K V))
  unfolding begin_tree
  begin m = begin_tree m.root

  unfoldable pub rbegin : Map K V → Option (Cursor (MapNode K V))
  unfolding rbegin_tree
  rbegin m = rbegin_tree m.root

  unfoldable pub find_loop :
      (K → K → Ordering)
      → ℕ
      → K
      → List (Crumb (MapNode K V))
      → Tree (MapNode K V)
      → Option (Cursor (MapNode K V))
  find_loop cmp k key path leaf = none
  find_loop cmp k key path (node c l x r) = elim (side cmp k key x) [
    | lt ↦ find_loop cmp k key (from_left c x r ∷ path) l
    | gt ↦ find_loop cmp k key (from_right c l x ∷ path) r
    | eq ↦ some (record { color = c; left = l; item = x; right = r; path = path })
  ]

  unfoldable pub find : Map K V → K → Option (Cursor (MapNode K V))
  unfolding empty find_loop
  find m key = if empty m then none else find_loop m.cmp (m.hash key) key [] m.root

  module _ (rb : Rbtree (MapNode K V)) where
    unfoldable pub delete : Map K V → K → Map K V
    delete m key = record m { root = elim (find m key) [ none ↦ m.root | some p ↦ rb.delete p ] }

    -- `ngx_rbtree_insert` on the map's tree, with the function that `ngx_map_init` gave it
    pub link : Map K V → MapNode K V → Map K V
    link m n = record m { root = rb.insert (insert_value m.cmp) m.root n }

    -- the node's key and value; its hash is computed here
    unfoldable pub insert : Map K V → K → V → Bool → Map K V
    unfolding link
    insert m raw_key value covered =
        let n : MapNode K V = record { key = m.hash raw_key; raw_key = raw_key; value = value } in
        record m {
          root = elim (find m raw_key) [
            | none ↦ (link m n).root
            | some p ↦ if covered then (link (delete m raw_key) n).root else m.root
          ];
        }
