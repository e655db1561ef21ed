-- ===== src/HttpDynamic/Blocks/Tests.antt =====
-- Witnesses and tests of the blocks.
use nginx_toolkit_module.Base.{
  ℕ, suc, ◌≡◌, refl, sym, ap, Option, Bool, true, false, none, some, List, [], ◌∷◌, ◌++◌, length,
}
use nginx_toolkit_module.Text.{codes}
use nginx_toolkit_module.DynamicConf.Handler.{Rv, conf_ok}
use nginx_toolkit_module.HttpDynamic.Location.{LocConf, entry_of}
use nginx_toolkit_module.HttpDynamic.Trees.{
  join_exact_locations, join_from, create_list, create_tree, tree_at, node_of, split, span,
}
use nginx_toolkit_module.HttpDynamic.Search.{
  Locations, finish, init_locations, init_static_location_trees, split_regex,
}
use nginx_toolkit_module.HttpDynamic.Servers.{Server, Hashes, MainConf, added}
use nginx_toolkit_module.HttpDynamic.Blocks.{
  Slots, Cf, HttpModule, http_srv, other_level, create_confs, init_confs, inside, in_block,
  blank_server, location_block, server_block, http_block,
}
use nginx_toolkit_module.HttpDynamic.Names.{FileNames, slash_first}
use nginx_toolkit_module.HttpDynamic.Blocks.Runs.{Creates, Inits, KeepsState}
use nginx_toolkit_module.HttpDynamic.Blocks.Restores.{blocks_restore, server_block_ok}

instance abbrev nginx_names : FileNames
nginx_names = slash_first

-- a module that counts its calls and moves the configuration state, and one that is not http
abbrev core : {V : Type 0} → HttpModule (ℕ × V)
core = record {
  hooked = true;
  ctx_index = 3;
  create = some (λ cf t. (some 40, cf, (suc t.0, t.1)));
  init = some (λ p cf t. (conf_ok, record cf { others = 9 }, (suc t.0, t.1)));
}

abbrev plain : {V : Type 0} → HttpModule (ℕ × V)
plain = record { hooked = false; ctx_index = 4; create = none; init = none }

abbrev state : Cf
state = record { ctx = (1, 2) ∷ []; http_module = true; cmd_type = other_level 5; others = 6 }

abbrev page : LocConf
page = record {
  name = codes "/";
  regex = none;
  exact_match = false;
  noregex = false;
  loc_conf = 40;
}

-- a block whose parsing finds one location
abbrev parser : Cf → ℕ × Server → Bool × Cf × (ℕ × Server)
parser cf t = (
  true,
  record cf { others = 7 },
  (
    suc t.0,
    record t.1 { locations = record t.1.locations { locations = some (entry_of page ∷ []) } },
  ),
)

abbrev no_names : Hashes
no_names = record {
  Table = ℕ;
  add_key = λ k n s. (added, k);
  hash_init = λ ks. some (length ks);
  sort_wildcards = λ ks. ks;
  wildcard_init = λ ks. some (length ks);
  find_combined = λ a b c u. none;
}

abbrev main : MainConf no_names
main = record { servers = []; hash = none; wc_head = none; wc_tail = none; nregex = 0; regex = [] }

core-KeepsState : {V : Type 0} → KeepsState (core {V = V})
core-KeepsState f e cf t =
    ap
      (λ (o : Option (Cf → _ → Option ℕ × Cf × _)). elim o as (λ _. Cf) [
        | none ↦ cf
        | some g ↦ (g cf t).1
      ])
      (sym e)

plain-KeepsState : {V : Type 0} → KeepsState (plain {V = V})
plain-KeepsState f e cf t = cc

blocks_restore_example :
    ((location_block true
        (λ p b. some 1)
        true
        true
        (codes "location" ∷ codes "/" ∷ [])
        page
        parser
        (core ∷ plain ∷ [])
        state
        (0, blank_server)).1
      ≡ state)
    × ((server_block true true
          (λ c xs. xs)
          true
          (λ n. 0)
          (λ n x. true)
          parser
          (core ∷ plain ∷ [])
          state
          0
          []).1
        ≡ state)
    × ((http_block no_names true true true true
          (λ cf t. (false, record cf { others = 8 }, t))
          (core ∷ [])
          state
          (0, main)).1
        ≡ state)
blocks_restore_example =
    blocks_restore true (λ p b. some 1) true true (codes "location" ∷ codes "/" ∷ []) page true
      (λ c xs. xs) true (λ n. 0) (λ n x. true) parser (core ∷ plain ∷ []) no_names true
      (λ cf t. (false, record cf { others = 8 }, t)) (core ∷ []) state 0 blank_server main []
      (core-KeepsState, (plain-KeepsState, tt)) (core-KeepsState, tt)

abbrev block : Rv × Cf × ℕ × List Server
block =
    server_block true true (λ c xs. xs) true (λ n. 0) (λ n x. true) parser (core ∷ plain ∷ []) state
      0 []

server_block_ok_example :
    (k : Slots) × (cf1 : Cf) × (t1 : ℕ × Server) × (cf2 : Cf) × (t2 : ℕ × Server) × (cf3 : Cf)
    × (t3 : ℕ × Server) × (l : Locations) × Creates
        (core ∷ plain ∷ [])
        []
        state
        (0, blank_server)
        k
        cf1
        t1
    × (parser (record cf1 { ctx = k; cmd_type = http_srv }) t1 ≡ (true, cf2, t2))
    × Inits (core ∷ plain ∷ []) k cf2 t2 cf3 t3
    × (finish (λ c xs. xs) true (λ n. 0) (λ n x. true) t3.1.locations ≡ (true, l))
    × (block ≡ (conf_ok, cf1, t3.0, [] ++ (record t3.1 { locations = l } ∷ [])))
unfolding server_block create_confs in_block inside init_confs finish init_locations
    init_static_location_trees split_regex join_exact_locations join_from create_list create_tree
    tree_at node_of split span entry_of
server_block_ok_example =
    server_block_ok true true (λ c xs. xs) true (λ n. 0) (λ n x. true) parser (core ∷ plain ∷ [])
      state 0 [] refl
