-- ===== src/HttpDynamic/Location.antt =====
-- The directive `location`: its modifier and its place on the queue of the server.
pub mod Forms
use nginx_toolkit_module.Base.{
  ℕ, zero, suc, ◌+◌, Bool, true, false, ◌&&◌, ◌||◌, Option, none, some, List, [], ◌∷◌, ◌++◌, ◌==◌,
  if◌then◌else◌, drop,
}
use nginx_toolkit_module.Text.{Bytes, codes}
use nginx_toolkit_module.Port.{bytes_eq}

-- `regex` is what the compiler of regular expressions returns, `loc_conf` a pointer; a server's
-- own queue and trees are a `Locations` below
pub record LocConf : Type 0 where
  pub name : Bytes
  pub regex : Option ℕ
  pub exact_match : Bool
  pub noregex : Bool
  pub loc_conf : ℕ

-- an entry of the queue, less the place in the configuration, which is for the log
pub record Entry : Type 0 where
  pub exact : Option LocConf
  pub inclusive : Option LocConf
  pub name : Bytes

-- a text of the configuration has a NUL behind it
abbrev pub byte_at : Bytes → ℕ → ℕ
byte_at [] i = 0
byte_at (x ∷ xs) zero = x
byte_at (x ∷ xs) (suc i) = byte_at xs i

abbrev pub is_some {ℓ} : {A : Type ℓ} → Option A → Bool
is_some none = false
is_some (some x) = true

unfoldable pub entry_of : LocConf → Entry
entry_of c =
    if c.exact_match || is_some c.regex
    then record { exact = some c; inclusive = none; name = c.name }
    else record { exact = none; inclusive = some c; name = c.name }

-- `compile` is ngx_dynamic_regex_compile on a pattern, without case or not
module _ (compile : Bytes → Bool → Option ℕ) where
  pub regex_location : Bytes → Bool → LocConf → Option LocConf
  regex_location regex caseless c = elim (compile regex caseless) [
    | none ↦ none
    | some r ↦ some (record c { regex = some r; name = regex })
  ]

  -- a modifier and a name
  pub with_modifier : Bytes → Bytes → LocConf → Option LocConf
  unfolding regex_location
  with_modifier mod_ name c =
      if bytes_eq mod_ (codes "=")
      then some (record c { name = name; exact_match = true })
      else if bytes_eq mod_ (codes "^~")
      then some (record c { name = name; noregex = true })
      else if bytes_eq mod_ (codes "~")
      then regex_location name false c
      else if bytes_eq mod_ (codes "~*")
      then regex_location name true c
      else none

  -- the modifier and the name in one
  pub with_name : Bytes → LocConf → Option LocConf
  unfolding regex_location
  with_name name c =
      if byte_at name 0 == b'='
      then some (record c { name = drop 1 name; exact_match = true })
      else if byte_at name 0 == b'^' && byte_at name 1 == b'~'
      then some (record c { name = drop 2 name; noregex = true })
      else if byte_at name 0 == b'~'
      then if byte_at (drop 1 name) 0 == b'*'
        then regex_location (drop 2 name) true c
        else regex_location (drop 1 name) false c
      else some (record c { name = name })

  -- the directive takes one or two arguments
  pub predeal_location : List Bytes → LocConf → Option LocConf
  unfolding with_modifier with_name
  predeal_location (_ ∷ mod_ ∷ name ∷ []) c = with_modifier mod_ name c
  predeal_location (_ ∷ name ∷ []) c = with_name name c
  predeal_location _ c = none

  -- `queue_memory` and `memory` are whether ngx_pcalloc returns memory for the queue and for the
  -- entry; the queue made stays where the entry fails
  pub add_location :
      Bool → Bool → List Bytes → Option (List Entry) → LocConf → Bool × Option (List Entry)
  unfolding predeal_location entry_of
  add_location queue_memory memory args locations c = elim (predeal_location args c) [
    | none ↦ (false, locations)
    | some c' ↦ elim locations [
      | none ↦
          if queue_memory
          then (if memory then (true, some (entry_of c' ∷ [])) else (false, some []))
          else (false, none)
      | some lqs ↦ if memory then (true, some (lqs ++ (entry_of c' ∷ []))) else (false, some lqs)
    ]
  ]
