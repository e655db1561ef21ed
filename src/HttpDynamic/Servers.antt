-- ===== src/HttpDynamic/Servers.antt =====
-- The virtual servers: the directive `server_name`, the tables of their names when the http block
-- ends, and the server and the location of a request.
pub mod Names
pub mod Ready
pub mod Tables
pub mod Adds
pub mod Request
mod Tests
use nginx_toolkit_module.Base.{
  ℕ, zero, suc, ◌+◌, ◌-◌, Bool, true, false, not, ◌&&◌, ◌||◌, Option, none, some, List, [], ◌∷◌,
  ◌==◌, if◌then◌else◌, length, ltb, leb, drop, ◌++◌,
}
use nginx_toolkit_module.Text.{Bytes, codes, has}
use nginx_toolkit_module.Port.{bytes_eq}
use nginx_toolkit_module.HttpDynamic.Names.{FileNames}
use nginx_toolkit_module.HttpDynamic.Location.{LocConf, byte_at, is_some}
use nginx_toolkit_module.HttpDynamic.Trees.{Found, declined, again, ok, fault}
use nginx_toolkit_module.HttpDynamic.Search.{
  Locations, Exec, matched, no_matched, failed, Located, found, regex_error, find_location,
}

-- `server` is the place of its server in the array of the servers
pub record ServerName : Type 0 where
  pub regex : Option ℕ
  pub server : ℕ
  pub name : Bytes

pub record Server : Type 0 where
  pub server_names : List ServerName
  pub locations : Locations

-- what ngx_hash_add_key returns: NGX_OK, NGX_BUSY, or a refusal
pub data Added : Type 0 where
  added : Added
  busy : Added
  refused : Added

-- a key array, with the keys of each kind
pub record Keys : Type 0 where
  pub keys : List (Bytes × ℕ)
  pub dns_wc_head : List (Bytes × ℕ)
  pub dns_wc_tail : List (Bytes × ℕ)

-- the tables of nginx: the functions on keys and tables, and the search through all three
pub record Hashes : Type 1 where
  pub Table : Type 0
  pub add_key : Keys → Bytes → ℕ → Added × Keys
  pub hash_init : List (Bytes × ℕ) → Option Table
  pub sort_wildcards : List (Bytes × ℕ) → List (Bytes × ℕ)
  pub wildcard_init : List (Bytes × ℕ) → Option Table
  pub find_combined : Option Table → Option Table → Option Table → Bytes → Option ℕ

-- what ngx_http_dynamic_core_find_virtual_server returns; `no_server` is NGX_DECLINED, `bad_read`
-- a NULL pointer followed
pub data Virtual : Type 0 where
  server_at : ℕ → Virtual
  no_server : Virtual
  server_error : Virtual
  bad_read : Virtual

-- what a module gets for a request: NULL, what it asks for, or what memory that is not set gives
pub data Answer (A : Type 0) : Type 0 where
  null : Answer A
  undefined : Answer A
  given : A → Answer A

abbrev pub no_keys : Keys
no_keys = record { keys = []; dns_wc_head = []; dns_wc_tail = [] }

module _ (h : Hashes) where
  -- the default server is the first of the array; `regex` is NULL or the array of `nregex` names
  pub record MainConf : Type 0 where
    pub servers : List Server
    pub hash : Option h.Table
    pub wc_head : Option h.Table
    pub wc_tail : Option h.Table
    pub nregex : ℕ
    pub regex : List ServerName

  -- `temp` is whether the pool for temporary data is still there
  pub record Init : Type 0 where
    pub ok_ : Bool
    pub temp : Bool
    pub conf : MainConf

  -- the keys of the names that are no regular expressions, with the number of those that are
  pub add_names : List ServerName → Keys → ℕ → Option (Keys × ℕ)
  add_names [] k n = some (k, n)
  add_names (x ∷ xs) k n =
      let counted = add_names xs k (suc n) in
      let more = add_names xs (h.add_key k x.name x.server).1 n in
      if is_some x.regex
      then counted
      else elim (h.add_key k x.name x.server).0 [ added ↦ more | busy ↦ more | refused ↦ none ]

  pub add_servers : List Server → Keys → ℕ → Option (Keys × ℕ)
  unfolding add_names
  add_servers [] k n = some (k, n)
  add_servers (s ∷ ss) k n = elim (add_names s.server_names k n) [
    | none ↦ none
    | some (k', n') ↦ add_servers ss k' n'
  ]

  -- a table of keys, or none of no keys; no result is the failure
  pub table_of : (List (Bytes × ℕ) → Option h.Table) → List (Bytes × ℕ) → Option (Option h.Table)
  table_of make [] = some none
  table_of make (k ∷ ks) = elim (make (k ∷ ks)) [ none ↦ none | some t ↦ some (some t) ]

  -- the names with regular expressions, server by server
  abbrev pub with_regex : List ServerName → List ServerName
  with_regex [] = []
  with_regex (x ∷ xs) = if is_some x.regex then x ∷ with_regex xs else with_regex xs

  abbrev pub regexes_of : List Server → List ServerName
  regexes_of [] = []
  regexes_of (s ∷ ss) = with_regex s.server_names ++ regexes_of ss

  -- the array of the regular expressions, behind the destruction of the pool; `memory` is whether
  -- ngx_pcalloc returns memory for it
  pub init_regex : Bool → ℕ → MainConf → Init
  init_regex memory zero c = record { ok_ = true; temp = false; conf = c }
  init_regex memory (suc n) c =
      if memory
      then record {
        ok_ = true;
        temp = false;
        conf = record c { nregex = suc n; regex = regexes_of c.servers };
      }
      else record { ok_ = false; temp = false; conf = record c { nregex = suc n } }

  abbrev pub failed_init : MainConf → Init
  failed_init c = record { ok_ = false; temp = false; conf = c }

  pub init_tail : Bool → Keys → ℕ → MainConf → Init
  unfolding table_of init_regex
  init_tail memory k n c =
      elim (table_of (λ ks. h.wildcard_init (h.sort_wildcards ks)) k.dns_wc_tail) [
        | none ↦ failed_init c
        | some t ↦ init_regex memory n (record c { wc_tail = t })
      ]

  pub init_head : Bool → Keys → ℕ → MainConf → Init
  unfolding table_of init_tail
  init_head memory k n c =
      elim (table_of (λ ks. h.wildcard_init (h.sort_wildcards ks)) k.dns_wc_head) [
        | none ↦ failed_init c
        | some t ↦ init_tail memory k n (record c { wc_head = t })
      ]

  pub init_hash : Bool → Keys → ℕ → MainConf → Init
  unfolding table_of init_head
  init_hash memory k n c = elim (table_of h.hash_init k.keys) [
    | none ↦ failed_init c
    | some t ↦ init_head memory k n (record c { hash = t })
  ]

  -- `pool` and `array` are whether the pool and the key array are made
  pub init_virtual_servers : Bool → Bool → Bool → MainConf → Init
  unfolding add_servers init_hash
  init_virtual_servers pool array memory c =
      if not pool
      then failed_init c
      else if not array
      then failed_init c
      else elim (add_servers c.servers no_keys 0) [
        | none ↦ record { ok_ = false; temp = true; conf = c }
        | some (k, n) ↦ init_hash memory k n c
      ]

  -- `n` names from the array on
  pub regex_servers : (ℕ → Bytes → Exec) → ℕ → List ServerName → Bytes → Virtual
  regex_servers exec zero xs host = no_server
  regex_servers exec (suc n) [] host = bad_read
  regex_servers exec (suc n) (x ∷ xs) host = elim x.regex [
    | none ↦ bad_read
    | some r ↦ elim (exec r host) [
      | matched ↦ server_at x.server
      | no_matched ↦ regex_servers exec n xs host
      | failed ↦ server_error
    ]
  ]

  pub find_virtual_server : (ℕ → Bytes → Exec) → MainConf → Bytes → Virtual
  unfolding regex_servers
  find_virtual_server exec c host = elim (h.find_combined c.hash c.wc_head c.wc_tail host) [
    | some s ↦ server_at s
    | none ↦ elim host [ [] ↦ no_server | x ∷ xs ↦ regex_servers exec c.nregex c.regex (x ∷ xs) ]
  ]

  abbrev pub server_of : List Server → ℕ → Answer Server
  server_of [] n = undefined
  server_of (s ∷ ss) zero = given s
  server_of (s ∷ ss) (suc n) = server_of ss n

  -- The server of a request; there is no configuration where none was loaded. The default server
  -- of an empty array is what its memory holds.
  pub get_srv : (ℕ → Bytes → Exec) → Option MainConf → Bytes → Answer Server
  unfolding find_virtual_server
  get_srv exec none host = null
  get_srv exec (some c) host = elim (find_virtual_server exec c host) [
    | server_at n ↦ server_of c.servers n
    | no_server ↦ server_of c.servers 0
    | server_error ↦ null
    | bad_read ↦ undefined
  ]

module _ (h : Hashes) ⦃f : FileNames⦄ where
  -- the location of a request
  pub get_loc : (ℕ → Bytes → Exec) → Option (MainConf h) → Bytes → Bytes → Answer LocConf
  unfolding get_srv
  get_loc exec c host uri = elim (get_srv h exec c host) [
    | null ↦ null
    | undefined ↦ undefined
    | given s ↦ elim (find_location exec s.locations uri) [
      | regex_error ↦ null
      | found r ↦ elim r [
        | declined ↦ null
        | again l ↦ given l
        | ok l ↦ given l
        | fault ↦ undefined
      ]
    ]
  ]
