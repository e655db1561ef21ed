-- ===== src/Map/Walk.antt =====
-- Cursors: `begin`, `rbegin`, `next` and `prev` against the nodes from left to right.
use nginx_toolkit_module.Base.{
  ℕ, zero, suc, ◌≤◌, ◌<◌, ◌≡◌, refl, sym, ap, ◌∙◌, Option, none, some, List, [], ◌∷◌, ◌++◌,
  append-nil, append_assoc, length, arith,
}
use nginx_toolkit_module.Map.{
  Tree, leaf, node, Color, Crumb, from_left, from_right, Cursor, items, path_before, path_after,
  before, after, leftmost, rightmost, climb_right, climb_left, next, prev, Map, begin_tree,
  rbegin_tree, begin, rbegin, walk_on, walk, MapNode,
}

module _ {ℓ} {N : Type ℓ} where
  -- the tree whose root the way up leads to
  abbrev pub fill : List (Crumb N) → Tree N → Tree N
  fill [] t = t
  fill (from_left c x r ∷ path) t = fill path (node c t x r)
  fill (from_right c l x ∷ path) t = fill path (node c l x t)

  -- the tree that a cursor points into
  abbrev pub whole : Cursor N → Tree N
  whole p = fill p.path (node p.color p.left p.item p.right)

  pub items-fill :
      (path : List (Crumb N)) (t : Tree N)
      → items (fill path t) ≡ path_before path ++ (items t ++ path_after path)
  items-fill [] t = sym (append-nil (items t))
  items-fill (from_left c x r ∷ path) t = items-fill path (node c t x r) ∙ simp append_assoc
  items-fill (from_right c l x ∷ path) t = items-fill path (node c l x t) ∙ simp append_assoc

  pub items-whole : (p : Cursor N) → items (whole p) ≡ before p ++ (p.item ∷ after p)
  items-whole p = items-fill p.path (node p.color p.left p.item p.right) ∙ simp append_assoc

  -- a step lands on the node next to the right, of the same tree
  abbrev pub IsNext : Cursor N → Option (Cursor N) → Type ℓ
  IsNext p none = after p ≡ []
  IsNext p (some q) =
      (whole q ≡ whole p) × (before q ≡ before p ++ (p.item ∷ [])) × (after p ≡ q.item ∷ after q)

  abbrev pub IsPrev : Cursor N → Option (Cursor N) → Type ℓ
  IsPrev p none = before p ≡ []
  IsPrev p (some q) =
      (whole q ≡ whole p) × (after q ≡ p.item ∷ after p) × (before p ≡ before q ++ (q.item ∷ []))

  leftmost_lem :
      (c : Color) (l : Tree N) (x : N) (r : Tree N) (path : List (Crumb N))
      → let q = leftmost c l x r path in
        (whole q ≡ fill path (node c l x r))
        × (before q ≡ path_before path)
        × (q.item ∷ after q ≡ items (node c l x r) ++ path_after path)
  unfolding leftmost
  leftmost_lem c leaf x r path = (refl, append-nil _, refl)
  leftmost_lem c (node c' l' x' r') x r path =
      let (w, b, a) = leftmost_lem c' l' x' r' (from_left c x r ∷ path) in
      (w, b, a ∙ simp append_assoc)

  rightmost_lem :
      (c : Color) (l : Tree N) (x : N) (r : Tree N) (path : List (Crumb N))
      → let q = rightmost c l x r path in
        (whole q ≡ fill path (node c l x r))
        × (after q ≡ path_after path)
        × (before q ++ (q.item ∷ []) ≡ path_before path ++ items (node c l x r))
  unfolding rightmost
  rightmost_lem c l x leaf path = (refl, refl, simp append_assoc)
  rightmost_lem c l x (node c' l' x' r') path =
      let (w, a, b) = rightmost_lem c' l' x' r' (from_right c l x ∷ path) in
      (w, a, b ∙ simp append_assoc)

  climb_right_lem :
      (t : Tree N) (path : List (Crumb N)) (p : Cursor N)
      → whole p ≡ fill path t
      → before p ++ (p.item ∷ []) ≡ path_before path ++ items t
      → after p ≡ path_after path
      → IsNext p (climb_right t path)
  unfolding climb_right
  climb_right_lem t [] p w b a = a
  climb_right_lem t (from_left c x r ∷ path) p w b a = (sym w, sym b, a)
  climb_right_lem t (from_right c l x ∷ path) p w b a =
      climb_right_lem (node c l x t) path p w (b ∙ simp append_assoc) a

  climb_left_lem :
      (t : Tree N) (path : List (Crumb N)) (p : Cursor N)
      → whole p ≡ fill path t
      → p.item ∷ after p ≡ items t ++ path_after path
      → before p ≡ path_before path
      → IsPrev p (climb_left t path)
  unfolding climb_left
  climb_left_lem t [] p w a b = b
  climb_left_lem t (from_right c l x ∷ path) p w a b = (sym w, sym a, b ∙ simp append_assoc)
  climb_left_lem t (from_left c x r ∷ path) p w a b =
      climb_left_lem (node c t x r) path p w (a ∙ simp append_assoc) b

  cursor : Color → Tree N → N → Tree N → List (Crumb N) → Cursor N
  cursor c l x r path = record { color = c; left = l; item = x; right = r; path = path }

  next_from-IsNext :
      (c : Color) (l : Tree N) (x : N) (r : Tree N) (path : List (Crumb N))
      → IsNext (cursor c l x r path) (next (cursor c l x r path))
  unfolding next cursor
  next_from-IsNext c l x leaf path =
      climb_right_lem (node c l x leaf) path (cursor c l x leaf path) refl (simp append_assoc) refl
  next_from-IsNext c l x (node c' l' x' r') path =
      let (w, b, a) = leftmost_lem c' l' x' r' (from_right c l x ∷ path) in
      (w, b ∙ simp append_assoc, sym a)

  prev_from-IsPrev :
      (c : Color) (l : Tree N) (x : N) (r : Tree N) (path : List (Crumb N))
      → IsPrev (cursor c l x r path) (prev (cursor c l x r path))
  unfolding prev cursor
  prev_from-IsPrev c leaf x r path =
      climb_left_lem (node c leaf x r) path (cursor c leaf x r path) refl refl (append-nil _)
  prev_from-IsPrev c (node c' l' x' r') x r path =
      let (w, a, b) = rightmost_lem c' l' x' r' (from_left c x r ∷ path) in (w, a, sym b)

  -- From any node of any tree, ngx_map_next leads to the node that follows it from left to right
  -- in the same tree, and returns NULL exactly at the last node.
  pub next-IsNext : (p : Cursor N) → IsNext p (next p)
  unfolding cursor
  next-IsNext p = next_from-IsNext p.color p.left p.item p.right p.path

  -- From any node of any tree, ngx_map_prev leads to the node before it from left to right in the
  -- same tree, and returns NULL exactly at the first node.
  pub prev-IsPrev : (p : Cursor N) → IsPrev p (prev p)
  unfolding cursor
  prev-IsPrev p = prev_from-IsPrev p.color p.left p.item p.right p.path

  abbrev pub IsFirst : Tree N → Option (Cursor N) → Type ℓ
  IsFirst t none = items t ≡ []
  IsFirst t (some p) = (whole p ≡ t) × (before p ≡ []) × (items t ≡ p.item ∷ after p)

  abbrev pub IsLast : Tree N → Option (Cursor N) → Type ℓ
  IsLast t none = items t ≡ []
  IsLast t (some p) = (whole p ≡ t) × (after p ≡ []) × (items t ≡ before p ++ (p.item ∷ []))

  begin_tree-IsFirst : (t : Tree N) → IsFirst t (begin_tree t)
  unfolding begin_tree
  begin_tree-IsFirst leaf = refl
  begin_tree-IsFirst (node c l x r) =
      let (w, b, a) = leftmost_lem c l x r [] in (w, b, sym (a ∙ append-nil _))

  rbegin_tree-IsLast : (t : Tree N) → IsLast t (rbegin_tree t)
  unfolding rbegin_tree
  rbegin_tree-IsLast leaf = refl
  rbegin_tree-IsLast (node c l x r) = let (w, a, b) = rightmost_lem c l x r [] in (w, a, sym b)

  -- from a cursor on, the loop visits the node and those after it
  walk-cursor :
      (fuel : ℕ) (p : Cursor N)
      → length (after p) < fuel
      → walk fuel (some p) ≡ some (p.item ∷ after p)
  unfolding walk
  walk-cursor zero p h = absurd (omega arith)
  walk-cursor (suc fuel) p h = go (next p) (next-IsNext p) (walk-cursor fuel)
    where
      go :
          (q : Option (Cursor N))
          → IsNext p q
          → ((q : Cursor N)
              → length (after q) < fuel
              → walk fuel (some q) ≡ some (q.item ∷ after q))
          → walk_on p.item (walk fuel q) ≡ some (p.item ∷ after p)
      go none e rest = rw e
      go (some q) (w, b, a) rest = rw (rest q (omega (arith, ap length a)), a)

module _ {ℓ κ} {K : Type ℓ} {V : Type κ} (m : Map K V) where
  -- ngx_map_begin returns the first node of the map's tree from left to right, and NULL exactly
  -- where the tree is empty.
  pub begin-IsFirst : IsFirst m.root (begin m)
  unfolding begin
  begin-IsFirst = begin_tree-IsFirst m.root

  -- ngx_map_rbegin returns the last node of the map's tree from left to right, and NULL exactly
  -- where the tree is empty.
  pub rbegin-IsLast : IsLast m.root (rbegin m)
  unfolding rbegin
  rbegin-IsLast = rbegin_tree-IsLast m.root

  -- The loop from ngx_map_begin by ngx_map_next ends after as many rounds as the map has nodes,
  -- and visits each node once, from left to right.
  pub walk-begin :
      (fuel : ℕ) → length (items m.root) ≤ fuel → walk fuel (begin m) ≡ some (items m.root)
  unfolding walk
  walk-begin fuel h = go (begin m) begin-IsFirst
    where
      go :
          (p : Option (Cursor (MapNode K V))) → IsFirst m.root p → walk fuel p ≡ some (items m.root)
      go none e = rw e
      go (some p) (w, b, a) = walk-cursor fuel p (omega (arith, ap length a)) ∙ rw a
