-- ===== src/HttpDynamic/Blocks.antt =====
-- The blocks `http`, `server` and `location`: what the modules create for a block, its parsing in
-- a configuration state of its own, and what the modules initialise behind it. The parsing of what
-- a block holds is an argument, a function of the state as DynamicConf.Parse has it for the
-- commands that the modules register, these blocks among them.
pub mod Runs
pub mod Restores
mod Tests
use nginx_toolkit_module.Base.{
  ℕ, Bool, true, false, not, Option, none, some, List, [], ◌∷◌, ◌++◌, ◌==◌, if◌then◌else◌, Ordering,
}
use nginx_toolkit_module.Text.{Bytes}
use nginx_toolkit_module.DynamicConf.Handler.{Rv, conf_ok, conf_error, message}
use nginx_toolkit_module.HttpDynamic.Names.{FileNames}
use nginx_toolkit_module.HttpDynamic.Location.{LocConf, Entry, add_location}
use nginx_toolkit_module.HttpDynamic.Trees.{leaf}
use nginx_toolkit_module.HttpDynamic.Search.{Locations, finish}
use nginx_toolkit_module.HttpDynamic.Servers.{Server, Hashes, MainConf, Init, init_virtual_servers}

-- the configurations of modules by their ctx_index, NULL where there is none
abbrev pub Slots : Type 0
Slots = List (ℕ × ℕ)

abbrev pub slot_of : Slots → ℕ → Option ℕ
slot_of [] i = none
slot_of ((j, p) ∷ ss) i = if i == j then some p else slot_of ss i

-- NGX_HTTP_MAIN_CONF, NGX_HTTP_SRV_CONF, NGX_HTTP_LOC_CONF, or another command type
pub data Level : Type 0 where
  http_main : Level
  http_srv : Level
  http_loc : Level
  other_level : ℕ → Level

-- ngx_conf_t; `others` are the members that a block does not set itself
pub record Cf : Type 0 where
  pub ctx : Slots
  pub http_module : Bool
  pub cmd_type : Level
  pub others : ℕ

-- a module as a block of one kind sees it: `hooked` is whether it is an http module with
-- spare_hook0; `create` and `init` are its functions, NULL or not
pub record HttpModule (T : Type 0) : Type 0 where
  pub hooked : Bool
  pub ctx_index : ℕ
  pub create : Option (Cf → T → Option ℕ × Cf × T)
  pub init : Option (Option ℕ → Cf → T → Rv × Cf × T)

module _ {T : Type 0} where
  -- the later slot of one place is read first
  unfoldable pub create_confs : List (HttpModule T) → Slots → Cf → T → Option Slots × Cf × T
  create_confs [] slots cf t = (some slots, cf, t)
  create_confs (m ∷ ms) slots cf t =
      let same = create_confs ms slots cf t in
      if not m.hooked then same else elim m.create [
        | none ↦ same
        | some f ↦
            let (made, cf', t') = f cf t in
            elim made [
              | none ↦ (none, cf', t')
              | some p ↦ create_confs ms ((m.ctx_index, p) ∷ slots) cf' t'
            ]
      ]

  unfoldable pub init_confs : List (HttpModule T) → Slots → Cf → T → Rv × Cf × T
  init_confs [] slots cf t = (conf_ok, cf, t)
  init_confs (m ∷ ms) slots cf t =
      let same = init_confs ms slots cf t in
      if not m.hooked then same else elim m.init [
        | none ↦ same
        | some f ↦
            let (rv, cf', t') = f (slot_of slots m.ctx_index) cf t in
            elim rv [
              | conf_ok ↦ init_confs ms slots cf' t'
              | conf_error ↦ (conf_error, cf', t')
              | message ↦ (message, cf', t')
            ]
      ]

  -- the parsing of a block, then the modules
  unfoldable pub inside :
      (Cf → T → Bool × Cf × T) → List (HttpModule T) → Slots → Cf → T → Rv × Cf × T
  unfolding init_confs
  inside parse ms slots cf t =
      let (parsed, cf', t') = parse cf t in
      if parsed then init_confs ms slots cf' t' else (conf_error, cf', t')

  -- what is inside a block with a state of its own, which is put back behind it; `ends` is what
  -- the code does then on success, without the configuration state
  unfoldable pub in_block :
      (Cf → T → Bool × Cf × T)
      → List (HttpModule T)
      → Slots
      → (Cf → Cf)
      → (T → Bool × T)
      → Cf
      → T
      → Rv × Cf × T
  unfolding inside
  in_block parse ms slots set ends cf t =
      let (rv, cf', t') = inside parse ms slots (set cf) t in
      elim rv [
        | conf_ok ↦ let (done, t'') = ends t' in (if done then conf_ok else conf_error, cf, t'')
        | conf_error ↦ (conf_error, cf, t')
        | message ↦ (message, cf, t')
      ]

abbrev pub blank_server : Server
blank_server = record {
  server_names = [];
  locations = record { locations = none; static_locations = leaf; regex_locations = [] };
}

module _ {S : Type 0} where
  -- `slots` is whether ngx_pcalloc returns memory for the slots, `compile`, `queue_memory`,
  -- `memory` and `args` are those of add_location, `c` is what the core module created. The state
  -- is that of the modules with the server.
  pub location_block :
      Bool
      → (Bytes → Bool → Option ℕ)
      → Bool
      → Bool
      → List Bytes
      → LocConf
      → (Cf → S × Server → Bool × Cf × (S × Server))
      → List (HttpModule (S × Server))
      → Cf
      → S × Server
      → Rv × Cf × (S × Server)
  location_block false compile queue_memory memory args c parse ms cf t = (conf_error, cf, t)
  location_block true compile queue_memory memory args c parse ms cf t =
      let (made, cf', (s, v)) = create_confs ms [] cf t in
      elim made [
        | none ↦ (conf_error, cf', (s, v))
        | some slots ↦
            let (added, lqs) =
              add_location compile queue_memory memory args v.locations.locations c in
            let t' : S × Server =
              (s, record v { locations = record v.locations { locations = lqs } }) in
            let inner : Cf → Cf = λ f. record f { ctx = slots; cmd_type = http_loc } in
            if added
            then in_block parse ms slots inner (λ u. (true, u)) cf' t'
            else (conf_error, cf', t')
      ]

module _ ⦃f : FileNames⦄ {S : Type 0} where
  -- `push` is whether ngx_array_push returns an element of the array of servers, `ends` what is
  -- done with the locations, `finish` with its parameters
  unfoldable pub server_block :
      Bool
      → Bool
      → ((Entry → Entry → Ordering) → List Entry → List Entry)
      → Bool
      → (ℕ → ℕ)
      → (ℕ → Bytes → Bool)
      → (Cf → S × Server → Bool × Cf × (S × Server))
      → List (HttpModule (S × Server))
      → Cf
      → S
      → List Server
      → Rv × Cf × S × List Server
  server_block false push sort array middle memory parse ms cf s servers =
      (conf_error, cf, s, servers)
  server_block true push sort array middle memory parse ms cf s servers =
      let (made, cf', (s', v)) = create_confs ms [] cf (s, blank_server) in
      let ends : S × Server → Bool × (S × Server) = λ t.
        let (done, l) = finish sort array middle memory t.1.locations in
        (done, (t.0, record t.1 { locations = l })) in
      elim made [
        | none ↦ (conf_error, cf', s', servers)
        | some slots ↦
            let inner : Cf → Cf = λ f. record f { ctx = slots; cmd_type = http_srv } in
            let (rv, cf'', (s'', v')) = in_block parse ms slots inner ends cf' (s', v) in
            if push then (rv, cf'', s'', servers ++ (v' ∷ [])) else (conf_error, cf', s', servers)
      ]

module _ {S : Type 0} where
  -- the servers are made by the parsing; `pool`, `array` and `memory` are those of
  -- init_virtual_servers
  pub http_block :
      (h : Hashes)
      → Bool
      → Bool
      → Bool
      → Bool
      → (Cf → S × MainConf h → Bool × Cf × (S × MainConf h))
      → List (HttpModule (S × MainConf h))
      → Cf
      → S × MainConf h
      → Rv × Cf × (S × MainConf h)
  http_block h false pool array memory parse ms cf t = (conf_error, cf, t)
  http_block h true pool array memory parse ms cf t =
      let (made, cf', t') = create_confs ms [] cf t in
      let ends : S × MainConf h → Bool × (S × MainConf h) =
        λ u. let i = init_virtual_servers h pool array memory u.1 in (i.ok_, (u.0, i.conf)) in
      elim made [
        | none ↦ (conf_error, cf', t')
        | some slots ↦
            let inner : Cf → Cf =
              λ f. record f { ctx = slots; http_module = true; cmd_type = http_main } in
            in_block parse ms slots inner ends cf' t'
      ]
