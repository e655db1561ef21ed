-- ===== src/HttpDynamic/Trees.antt =====
-- The static locations: the queue sorted, entries of one name joined, entries put into the list of
-- the entry whose name they go on from, and a search tree of it.
pub mod Flat
pub mod Split
pub mod Node
pub mod Correct
pub mod Build
pub mod Nest
pub mod Best
pub mod Join
pub mod Whole
use nginx_toolkit_module.Base.{
  ℕ, zero, suc, ◌+◌, ◌-◌, ◌%◌, ◌^◌, ◌<◌, ◌≡◌, Bool, true, false, not, ◌&&◌, ◌||◌, Option, none,
  some, List, [], ◌∷◌, ◌++◌, ◌==◌, Ordering, lt, eq, gt, if◌then◌else◌, drop, length, ltb, leb,
}
use nginx_toolkit_module.Text.{Bytes}
use nginx_toolkit_module.HttpDynamic.Names.{filename_cmp, lesser}
use nginx_toolkit_module.HttpDynamic.Location.{LocConf, Entry, is_some}
use nginx_toolkit_module.HttpDynamic.Names.{FileNames}

abbrev pub or_else : Option LocConf → Option LocConf → Option LocConf
or_else none b = b
or_else (some a) b = some a

-- `lq->exact ? lq->exact : lq->inclusive`, which is not NULL on a queue that add_location made
abbrev pub conf_of : Entry → Option LocConf
conf_of x = or_else x.exact x.inclusive

abbrev pub is_regex : Entry → Bool
is_regex x = elim (conf_of x) [ none ↦ false | some c ↦ is_some c.regex ]

abbrev pub is_exact : Entry → Bool
is_exact x = elim (conf_of x) [ none ↦ false | some c ↦ c.exact_match ]

module _ ⦃f : FileNames⦄ where
  -- the name of its configuration, which is the entry's
  unfoldable pub cmp_locations : Entry → Entry → Ordering
  cmp_locations x y =
      if is_regex x && not (is_regex y)
      then gt
      else if not (is_regex x) && is_regex y
      then lt
      else if is_regex x || is_regex y
      then eq
      else elim (filename_cmp x.name y.name (suc (lesser (length x.name) (length y.name)))) [
        | eq ↦ if not (is_exact x) && is_exact y then gt else eq
        | lt ↦ lt
        | gt ↦ gt
      ]

  abbrev pub same_name : Entry → Entry → Bool
  same_name x y =
      length x.name == length y.name
      && elim (filename_cmp x.name y.name (length y.name)) [ eq ↦ true | lt ↦ false | gt ↦ false ]

  -- from the entry `x` on; `none` where a location is there twice
  unfoldable pub join_from : Entry → List Entry → Option (List Entry)
  join_from x [] = some (x ∷ [])
  join_from x (y ∷ ys) =
      let joined = join_from (record x { inclusive = y.inclusive }) ys in
      let rest = join_from y ys in
      if same_name x y
      then if is_some x.exact && is_some y.exact || is_some x.inclusive && is_some y.inclusive
        then none
        else joined
      else elim rest [ none ↦ none | some zs ↦ some (x ∷ zs) ]

  unfoldable pub join_exact_locations : List Entry → Option (List Entry)
  unfolding join_from
  join_exact_locations [] = some []
  join_exact_locations (x ∷ xs) = join_from x xs

-- a queue of entries, each with its list
pub data Queue : Type 0 where
  nil : Queue
  cons : Entry → Queue → Queue → Queue

module _ ⦃f : FileNames⦄ where
  -- the entries ahead whose names go on from `name`, and those from the first other one on
  abbrev pub goes_on : Bytes → Entry → Bool
  goes_on name x =
      not (ltb (length x.name) (length name))
      && elim (filename_cmp name x.name (length name)) [ eq ↦ true | lt ↦ false | gt ↦ false ]

  unfoldable pub span : Bytes → List Entry → List Entry × List Entry
  span name [] = ([], [])
  span name (x ∷ xs) =
      let (a, b) = span name xs in if goes_on name x then (x ∷ a, b) else ([], x ∷ xs)

  -- on fuel: as many rounds as there are entries are enough
  unfoldable pub create_list : ℕ → List Entry → Queue
  unfolding span
  create_list zero xs = nil
  create_list (suc fuel) [] = nil
  create_list (suc fuel) (x ∷ xs) =
      let (inner, outer) = span x.name xs in
      let nested = cons x (create_list fuel inner) (create_list fuel outer) in
      let plain = cons x nil (create_list fuel xs) in if is_some x.inclusive then nested else plain

-- a node of the tree; `len` and `text` are its `len` and `name`
pub data Tree : Type 0 where
  leaf : Tree
  node : Tree → Tree → Tree → Option LocConf → Option LocConf → ℕ → Bytes → Tree

abbrev pub size : Queue → ℕ
size nil = 0
size (cons x list rest) = suc (size rest)

-- the entries before the place `i`, the entry there with its list, and those behind it
unfoldable pub split : ℕ → Queue → Option (Queue × Entry × Queue × Queue)
split i nil = none
split zero (cons x list rest) = some (nil, x, list, rest)
split (suc i) (cons x list rest) = elim (split i rest) [
  | none ↦ none
  | some (a, y, l, b) ↦ some (cons x list a, y, l, b)
]

-- an empty queue has no node
abbrev pub or_leaf : (Queue → Option Tree) → Queue → Option Tree
or_leaf f nil = some leaf
or_leaf f (cons x list rest) = f (cons x list rest)

-- `middle` is the place of ngx_queue_middle in a queue of this length, `memory` whether
-- ngx_palloc returns memory for the node of a name behind its prefix; a NULL node is `leaf`, no
-- result the failure. On fuel: as many rounds as there are entries, nested ones included, are
-- enough.
unfoldable pub node_of : ℕ → Entry → Option Tree → Option Tree → Option Tree → Option Tree
node_of prefix x (some left) (some right) (some tree) =
    let len = length x.name - prefix in
    some (node left right tree x.exact x.inclusive (len % 2 ^ 8) (drop prefix x.name))
node_of prefix x left right tree = none

module _ (middle : ℕ → ℕ) (memory : ℕ → Bytes → Bool) where
  -- `sub` makes the trees of the parts
  unfoldable pub tree_at :
      (ℕ → Queue → Option Tree) → ℕ → Option (Queue × Entry × Queue × Queue) → Option Tree
  unfolding node_of
  tree_at sub prefix none = none
  tree_at sub prefix (some (before, x, list, behind)) =
      if memory prefix x.name
      then node_of prefix x (or_leaf (sub prefix) before)
          (if size before == 0 then some leaf else or_leaf (sub prefix) behind)
          (or_leaf (sub (prefix + (length x.name - prefix))) list)
      else none

  unfoldable pub create_tree : ℕ → ℕ → Queue → Option Tree
  unfolding tree_at split
  create_tree zero prefix q = none
  create_tree (suc fuel) prefix q = tree_at (create_tree fuel) prefix (split (middle (size q)) q)

-- what a search has found so far: NGX_DECLINED, NGX_AGAIN or NGX_OK, and the location; `fault` is
-- a NULL pointer followed
pub data Found : Type 0 where
  declined : Found
  again : LocConf → Found
  ok : LocConf → Found
  fault : Found

-- a node with `uri` of its length
abbrev pub hit : Option LocConf → Option LocConf → Found
hit (some e) inclusive = ok e
hit none (some c) = again c
hit none none = fault

module _ ⦃f : FileNames⦄ where
  -- `uri` is what is left of the request's, `rv` what was found before
  unfoldable pub find_static_location : Tree → Bytes → Found → Found
  find_static_location leaf uri rv = rv
  find_static_location (node left right tree exact inclusive len text) uri rv =
      elim (filename_cmp uri text (lesser (length uri) len)) [
        | lt ↦ find_static_location left uri rv
        | gt ↦ find_static_location right uri rv
        | eq ↦ elim (ltb len (length uri)) [
          | true ↦ elim inclusive [
            | some c ↦ find_static_location tree (drop len uri) (again c)
            | none ↦ find_static_location right uri rv
          ]
          | false ↦ elim (length uri == len) [
            | true ↦ hit exact inclusive
            | false ↦ find_static_location left uri rv
          ]
        ]
      ]
