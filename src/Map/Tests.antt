-- ===== src/Map/Tests.antt =====
-- The map on concrete keys, over a tree that is not balanced.
use nginx_toolkit_module.Base.{
  ℕ, ◌≤◌, lt, gt, ◌≡◌, ◌≢◌, refl, ap, ◌∙◌, true, false, none, some, List, [], ◌∷◌, ◌++◌,
  append_assoc, arith, if◌then◌else◌, length,
}
use nginx_toolkit_module.Map.{
  Tree, leaf, node, black, from_left, Cursor, items, before, after, MapNode, Map, Rbtree, find,
  find_loop, insert, delete, begin, next, leftmost, climb_right, insert_value, walk,
}
use nginx_toolkit_module.Map.Sorted.{choose}
use nginx_toolkit_module.Map.Walk.{fill, items-fill, IsFirst, begin-IsFirst, walk-begin}
use nginx_toolkit_module.Map.Find.{rank, IsValid, contents, get, Finds, find-Finds}
use nginx_toolkit_module.Map.Update.{delete-IsValid, contents-delete}
use nginx_toolkit_module.Map.Insert.{kept, insert-IsValid, contents-insert}
use nginx_toolkit_module.Int.{pos, negsuc, ltb_int}
use nginx_toolkit_module.Map.Keys.{
  hash_uint, cmp_uint, cmp_uint-IsOrder, hash_int, cmp_int, same_sign, rank-int,
}

module _ {N : Type 0} where
  -- two trees, the second to the right of the first
  join : Tree N → Tree N → Tree N
  join leaf t = t
  join (node c l x r) t = node c l x (join r t)

  items-join : (s t : Tree N) → items (join s t) ≡ items s ++ items t
  unfolding join
  items-join leaf t = refl
  items-join (node c l x r) t = ap (λ z. items l ++ (x ∷ z)) (items-join r t) ∙ simp append_assoc

  plain_insert : (Tree N → N → Tree N) → Tree N → N → Tree N
  plain_insert f leaf n = node black leaf n leaf
  plain_insert f (node c l x r) n = f (node c l x r) n

  items-plain_insert :
      (f : Tree N → N → Tree N) (t : Tree N) (n : N) (xs ys : List N)
      → t ≢ leaf
      → items (f t n) ≡ xs ++ (n ∷ ys)
      → items (plain_insert f t n) ≡ xs ++ (n ∷ ys)
  unfolding plain_insert
  items-plain_insert f leaf n xs ys h e = absurd (h refl)
  items-plain_insert f (node c l x r) n xs ys h e = e

  plain_delete : Cursor N → Tree N
  plain_delete p = fill p.path (join p.left p.right)

  items-plain_delete : (p : Cursor N) → items (plain_delete p) ≡ before p ++ after p
  unfolding plain_delete
  items-plain_delete p =
      items-fill p.path (join p.left p.right) ∙ simp (items-join p.left p.right, append_assoc)

  -- nginx's tree without the rotations
  plain : Rbtree N
  unfolding plain_insert plain_delete
  plain = record {
    insert = plain_insert;
    delete = plain_delete;
    items-insert_leaf = λ f n. refl;
    items-insert = items-plain_insert;
    items-delete = items-plain_delete;
  }

abbrev empty_map : Map ℕ ℕ
empty_map = record { root = leaf; hash = hash_uint; cmp = cmp_uint }

empty_map-IsValid : IsValid empty_map
empty_map-IsValid = record { order = cmp_uint-IsOrder; sorted = tt; keyed = tt }

abbrev two : Map ℕ ℕ
two = insert plain (insert plain empty_map 5 50 false) 3 30 false

two-IsValid : IsValid two
two-IsValid =
    insert-IsValid plain (insert plain empty_map 5 50 false) 3 30 false
      (insert-IsValid plain empty_map 5 50 false empty_map-IsValid)

abbrev three : Map ℕ ℕ
three = insert plain two 8 80 false

three-IsValid : IsValid three
three-IsValid = insert-IsValid plain two 8 80 false two-IsValid

keys : List (MapNode ℕ ℕ) → List ℕ
keys [] = []
keys (x ∷ xs) = x.raw_key ∷ keys xs

keys-three : keys (items three.root) ≡ 3 ∷ 5 ∷ 8 ∷ []
unfolding keys insert find find_loop delete plain join insert_value hash_uint cmp_uint
keys-three = refl

contents-three :
    (get (insert plain three 5 51 true) 5 ≡ some 51)
    × (get (insert plain three 5 51 false) 5 ≡ some 50)
    × (get (delete plain three 5) 5 ≡ none)
    × (get (delete plain three 5) 8 ≡ some 80)
unfolding keys insert find find_loop delete plain join insert_value hash_uint cmp_uint
contents-three = (refl, refl, refl, refl)

walk-three : walk 3 (begin three) ≡ some (items three.root)
unfolding keys insert find find_loop delete plain join insert_value hash_uint cmp_uint walk next
    begin climb_right leftmost
walk-three = refl

-- node 2 of the tree 1, 2, 3 under its root 4
abbrev middle : Cursor ℕ
middle = record {
  color = black;
  left = node black leaf 1 leaf;
  item = 2;
  right = node black leaf 3 leaf;
  path = from_left black 4 leaf ∷ [];
}

begin-IsFirst_example : IsFirst three.root (begin three)
begin-IsFirst_example = begin-IsFirst three

length-three : length (items three.root) ≤ 7
unfolding keys insert find find_loop delete plain join insert_value hash_uint cmp_uint
length-three = omega arith

walk-begin_example : walk 7 (begin three) ≡ some (items three.root)
walk-begin_example = walk-begin three 7 length-three

find-Finds_example : Finds (rank hash_uint cmp_uint) 5 two.root (find two 5)
unfolding insert
find-Finds_example = find-Finds two-IsValid 5

insert-IsValid_example : IsValid (insert plain two 3 31 true)
insert-IsValid_example = insert-IsValid plain two 3 31 true two-IsValid

contents-insert_example :
    contents (insert plain two 3 31 true) 3
    ≡ choose (rank two.hash two.cmp 3 3) (kept true 31 (contents two 3)) (contents two 3)
contents-insert_example = contents-insert plain two 3 31 true 3 two-IsValid

delete-IsValid_example : IsValid (delete plain three 5)
delete-IsValid_example = delete-IsValid plain three 5 three-IsValid

contents-delete_example :
    contents (delete plain three 5) 8
    ≡ choose (rank three.hash three.cmp 8 5) none (contents three 8)
contents-delete_example = contents-delete plain three 5 8 three-IsValid

rank-int_example : rank hash_int cmp_int (pos 7) (negsuc 0) ≡ (
    if same_sign (pos 7) (negsuc 0)
    then cmp_int (pos 7) (negsuc 0)
    else if ltb_int (pos 7) (pos 0)
    then gt
    else lt)
rank-int_example = rank-int (pos 7) (negsuc 0) (omega arith) (omega arith)
