-- ===== src/HttpDynamic/Servers/Tests.antt =====
-- Witnesses and tests of the virtual servers.
use nginx_toolkit_module.Base.{
  ℕ, ◌≡◌, refl, Bool, true, false, Option, none, some, List, [], ◌∷◌, if◌then◌else◌,
}
use nginx_toolkit_module.Text.{Bytes, codes}
use nginx_toolkit_module.Port.{bytes_eq}
use nginx_toolkit_module.HttpDynamic.Search.{Locations, Exec, matched, no_matched}
use nginx_toolkit_module.HttpDynamic.Trees.{leaf}
use nginx_toolkit_module.HttpDynamic.Servers.{
  ServerName, Server, added, busy, refused, Keys, no_keys, Hashes, MainConf, Init, given,
  init_virtual_servers, add_servers, get_srv, add_names, init_hash, init_head, init_tail,
  init_regex, table_of, find_virtual_server, regex_servers,
}
use nginx_toolkit_module.HttpDynamic.Servers.Names.{server_name}
use nginx_toolkit_module.HttpDynamic.Servers.Adds.{all_names, Adds, AllMade}
use nginx_toolkit_module.HttpDynamic.Servers.Request.{Serves, init_virtual_servers-Serves}

abbrev lookup : List (Bytes × ℕ) → Bytes → Option ℕ
lookup [] u = none
lookup ((n, s) ∷ ks) u = if bytes_eq n u then some s else lookup ks u

-- tables as lists; an empty name is refused, and no name is a wildcard
abbrev lists : Hashes
lists = record {
  Table = List (Bytes × ℕ);
  add_key = λ k n s. elim n [
    | [] ↦ (refused, k)
    | x ∷ xs ↦ elim (lookup k.keys (x ∷ xs)) [
      | none ↦ (added, record k { keys = (x ∷ xs, s) ∷ k.keys })
      | some t ↦ (busy, k)
    ]
  ];
  hash_init = λ ks. some ks;
  sort_wildcards = λ ks. ks;
  wildcard_init = λ ks. some ks;
  find_combined = λ a b c u. elim a [ none ↦ none | some ks ↦ lookup ks u ];
}

abbrev no_locations : Locations
no_locations = record { locations = none; static_locations = leaf; regex_locations = [] }

abbrev named : Option ℕ → ℕ → Bytes → ServerName
named r s n = record { regex = r; server = s; name = n }

abbrev first : Server
first = record {
  server_names = named none 0 (codes "a.org") ∷ named (some 3) 0 (codes "x$") ∷ [];
  locations = no_locations;
}

abbrev second : Server
second = record {
  server_names = named none 1 (codes "b.org") ∷ named none 1 (codes "a.org") ∷ [];
  locations = no_locations;
}

abbrev main : MainConf lists
main = record {
  servers = first ∷ second ∷ [];
  hash = none;
  wc_head = none;
  wc_tail = none;
  nregex = 0;
  regex = [];
}

abbrev ready : Init lists
ready = init_virtual_servers lists true true true main

init_virtual_servers-Serves_example :
    (ready.temp ≡ false)
    × ((k : Keys) × Adds lists (all_names main.servers) no_keys k × AllMade lists k ready.conf)
    × ((exec : ℕ → Bytes → Exec) (host : Bytes)
        → Serves lists exec main.servers
            (lists.find_combined ready.conf.hash ready.conf.wc_head ready.conf.wc_tail host)
            host
            (get_srv lists exec (some ready.conf) host))
unfolding init_virtual_servers add_servers add_names init_hash init_head init_tail init_regex
    table_of
init_virtual_servers-Serves_example =
    init_virtual_servers-Serves lists true true true main (refl, refl) refl

-- a server with an empty name
abbrev bad : MainConf lists
bad = record main {
  servers = record { server_names = named none 0 [] ∷ []; locations = no_locations } ∷ [];
}

bad_leaves_pool : (init_virtual_servers lists true true true bad).temp ≡ true
unfolding init_virtual_servers add_servers add_names
bad_leaves_pool = refl

-- a name of the tables, an expression, and the first server for all else
abbrev three : ℕ → Bytes → Exec
three r u = if bytes_eq u (codes "x") then matched else no_matched

get_srv_ready :
    (get_srv lists three (some ready.conf) (codes "b.org") ≡ given second)
    × (get_srv lists three (some ready.conf) (codes "x") ≡ given first)
    × (get_srv lists three (some ready.conf) (codes "y") ≡ given first)
unfolding init_virtual_servers add_servers add_names init_hash init_head init_tail init_regex
    table_of get_srv find_virtual_server regex_servers
get_srv_ready = (refl, refl, refl)

abbrev compiler : Bytes → Bool → Option ℕ
compiler p caseless = if caseless then some 1 else some 2

abbrev arguments : List Bytes
arguments = codes "Www.a.org" ∷ codes "$HostName" ∷ codes "~^[A-Z]+$" ∷ codes "*.b.org" ∷ []

abbrev result : List ServerName
result =
    named none 4 (codes "www.a.org")
    ∷ named none 4 (codes "here")
    ∷ named (some 1) 4 (codes "^[A-Z]+$")
    ∷ named none 4 (codes "*.b.org")
    ∷ []

-- a wildcard without a dot is refused
refused_wildcard :
    (server_name compiler (codes "Here") (λ n. true) 4 (codes "*b.org" ∷ []) []).0 ≡ false
unfolding server_name
refused_wildcard = refl
