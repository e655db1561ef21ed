-- ===== src/HttpDynamic/Search.antt =====
-- The locations of a server when its block ends, and the search for a request.
pub mod Sort
pub mod Order
pub mod Kept
pub mod Finish
pub mod Request
use nginx_toolkit_module.Base.{
  ℕ, Bool, true, false, Option, none, some, List, [], ◌∷◌, Ordering, if◌then◌else◌, length,
}
use nginx_toolkit_module.Text.{Bytes}
use nginx_toolkit_module.HttpDynamic.Location.{LocConf, Entry}
use nginx_toolkit_module.HttpDynamic.Trees.{
  Tree, is_regex, cmp_locations, join_exact_locations, create_list, create_tree, Found, declined,
  again, ok, fault, find_static_location,
}
use nginx_toolkit_module.HttpDynamic.Names.{FileNames}

-- what a server keeps of its locations; the array of the regular expressions ends at a NULL
pub record Locations : Type 0 where
  pub locations : Option (List Entry)
  pub static_locations : Tree
  pub regex_locations : List (Option LocConf)

-- the entries before the first regular expression, and those from it on
unfoldable pub split_regex : List Entry → List Entry × List Entry
split_regex [] = ([], [])
split_regex (x ∷ xs) =
    let (a, b) = split_regex xs in if is_regex x then ([], x ∷ xs) else (x ∷ a, b)

abbrev pub exacts : List Entry → List (Option LocConf)
exacts [] = []
exacts (x ∷ xs) = x.exact ∷ exacts xs

module _ ⦃f : FileNames⦄ where
  -- `sort` is ngx_queue_sort, `memory` whether ngx_palloc returns memory
  unfoldable pub init_locations :
      ((Entry → Entry → Ordering) → List Entry → List Entry) → Bool → Locations → Bool × Locations
  unfolding split_regex
  init_locations sort memory l = elim l.locations [
    | none ↦ (true, l)
    | some lqs ↦
        let sorted = sort cmp_locations lqs in
        let (statics, regexes) = split_regex sorted in
        elim regexes [
          | [] ↦ (true, record l { locations = some sorted })
          | x ∷ xs ↦
              if memory
              then (true, record l { locations = some statics; regex_locations = exacts (x ∷ xs) })
              else (false, record l { locations = some sorted })
        ]
  ]

  -- the queue itself is not read again
  unfoldable pub init_static_location_trees :
      (ℕ → ℕ) → (ℕ → Bytes → Bool) → Locations → Bool × Locations
  init_static_location_trees middle memory l = elim l.locations [
    | none ↦ (true, l)
    | some [] ↦ (true, l)
    | some (x ∷ xs) ↦ elim (join_exact_locations (x ∷ xs)) [
      | none ↦ (false, l)
      | some lqs ↦ elim (create_tree middle memory (length lqs) 0 (create_list (length lqs) lqs)) [
        | none ↦ (false, l)
        | some t ↦ (true, record l { static_locations = t })
      ]
    ]
  ]

  -- the end of a server's block
  unfoldable pub finish :
      ((Entry → Entry → Ordering) → List Entry → List Entry)
      → Bool
      → (ℕ → ℕ)
      → (ℕ → Bytes → Bool)
      → Locations
      → Bool × Locations
  unfolding init_locations init_static_location_trees
  finish sort array middle memory l =
      let (ok_, l') = init_locations sort array l in
      if ok_ then init_static_location_trees middle memory l' else (false, l')

-- what ngx_regex_exec returns: NGX_OK, NGX_REGEX_NO_MATCHED or anything else
pub data Exec : Type 0 where
  matched : Exec
  no_matched : Exec
  failed : Exec

-- what the search returns; `regex_error` is NGX_ERROR
pub data Located : Type 0 where
  found : Found → Located
  regex_error : Located

module _ ⦃f : FileNames⦄ where
  -- `rc` is what the static locations gave
  module _ (exec : ℕ → Bytes → Exec) where
    unfoldable pub regex_loop : List (Option LocConf) → Bytes → Found → Located
    regex_loop [] uri rc = found rc
    regex_loop (none ∷ cs) uri rc = found rc
    regex_loop (some c ∷ cs) uri rc = elim c.regex [
      | none ↦ found fault
      | some r ↦ elim (exec r uri) [
        | matched ↦ found (ok c)
        | no_matched ↦ regex_loop cs uri rc
        | failed ↦ regex_error
      ]
    ]

    unfoldable pub with_regexes : List (Option LocConf) → Bytes → Found → Located
    unfolding regex_loop
    with_regexes cs uri declined = regex_loop cs uri declined
    with_regexes cs uri (again c) =
        if c.noregex then found (again c) else regex_loop cs uri (again c)
    with_regexes cs uri (ok c) = found (ok c)
    with_regexes cs uri fault = found fault

    unfoldable pub find_location : Locations → Bytes → Located
    unfolding with_regexes
    find_location l uri =
        with_regexes l.regex_locations uri (find_static_location l.static_locations uri declined)
