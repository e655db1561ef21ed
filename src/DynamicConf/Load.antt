-- ===== src/DynamicConf/Load.antt =====
-- ngx_dynamic_conf.c from `ngx_dynamic_conf_load_conf` on: a configuration is built in a pool of its
-- own and takes the place of the last one if all went well. nginx's pools are the parameter `Pools`;
-- the modules' functions work on the array `module_conf` and on a world `U`, and allocate from the
-- configuration's pool only: they neither create nor destroy a pool. (The init function of
-- ngx_http_dynamic.c does, HttpDynamic.Servers.) `memory` is whether ngx_pcalloc and ngx_array_create return memory.
pub mod Outcome
pub mod Returns
pub mod Ends
use nginx_toolkit_module.Base.{
  ℕ, zero, suc, ◌-◌, Bool, true, false, not, ◌&&◌, Option, none, some, List, [], ◌∷◌, ◌==◌,
  if◌then◌else◌,
}
use nginx_toolkit_module.Text.{Bytes}
use nginx_toolkit_module.Port.{bytes_eq}
use nginx_toolkit_module.Poold.{Pools}
use nginx_toolkit_module.DynamicConf.Token.{Rc, ok}
use nginx_toolkit_module.DynamicConf.Reader.{File, ConfFile}
use nginx_toolkit_module.DynamicConf.Handler.{Module, is_ok}
use nginx_toolkit_module.DynamicConf.Parse.{parse_loop}

-- the array `module_conf`: the configuration of each module, by its index; `none` is NULL
abbrev pub Confs : Type 0 → Type 0
Confs C = ℕ → Option C

abbrev pub put : {C : Type 0} → ℕ → C → Confs C → Confs C
put i c confs j = if j == i then some c else confs j

-- `core` is whether the type is NGX_CORE_MODULE; `hook` is spare_hook0, `none` where NULL.
-- `init_conf` returns whether it is other than NGX_CONF_ERROR.
pub record Hook (C U : Type 0) : Type 0 where
  pub create_conf : Option (Confs C × U → Option C × (Confs C × U))
  pub init_conf : Option (Option C → Confs C × U → Bool × (Confs C × U))

pub record CoreModule (C U : Type 0) : Type 0 where
  pub core : Bool
  pub ctx_index : ℕ
  pub hook : Option (Hook C U)

-- ngx_dynamic_conf_ctx_t
pub record Ctx (C : Type 0) : Type 0 where
  pub module_conf : Confs C
  pub pool : ℕ

-- ngx_dynamic_conf_conf_t, with `conf[0]` and `conf[1]`; `used` is whether it is 1
pub record Dccf (C : Type 0) : Type 0 where
  pub conf0 : Option (Ctx C)
  pub conf1 : Option (Ctx C)
  pub used : Bool
  pub file_name : Bytes
  pub refresh : ℕ
  pub md5key : Bytes

module _ {C : Type 0} where
  -- `dccf->conf[dccf->used]`
  unfoldable pub current : Dccf C → Option (Ctx C)
  current d = if d.used then d.conf1 else d.conf0

  unfoldable pub other : Dccf C → Option (Ctx C)
  other d = if d.used then d.conf0 else d.conf1

  pub set_current : Option (Ctx C) → Dccf C → Dccf C
  set_current c d = if d.used then record d { conf1 = c } else record d { conf0 = c }

  -- `ngx_get_dconf`
  pub get_dconf : Dccf C → ℕ → Option C
  unfolding current
  get_dconf d index = elim (current d) [ none ↦ none | some ctx ↦ ctx.module_conf index ]

-- a function of a module: whether it went well, and what it leaves
abbrev pub Loop : Type 0 → Type 0 → Type 0
Loop C U = Bool × (Confs C × U)

module _ {C U : Type 0} where
  pub create_one : ℕ → Option (Confs C × U → Option C × (Confs C × U)) → Confs C × U → Loop C U
  create_one index none w = (true, w)
  create_one index (some create) w =
      let (rv, (confs, u)) = create w in
      elim rv [ none ↦ (false, (confs, u)) | some c ↦ (true, (put index c confs, u)) ]

  pub init_one : ℕ → Option (Option C → Confs C × U → Bool × (Confs C × U)) → Confs C × U → Loop C U
  init_one index none w = (true, w)
  init_one index (some init) w = init (w.0 index) w

  -- both loops over `ngx_cycle->modules`; `call` is what they do with a module's hook
  pub each_module :
      (ℕ → Hook C U → Confs C × U → Loop C U) → List (CoreModule C U) → Confs C × U → Loop C U
  each_module call [] w = (true, w)
  each_module call (m ∷ ms) w = if not m.core then each_module call ms w else elim m.hook [
    | none ↦ each_module call ms w
    | some hook ↦
        let (fine, w') = call m.ctx_index hook w in
        elim fine [ true ↦ each_module call ms w' | false ↦ (false, w') ]
  ]

  pub create_confs : List (CoreModule C U) → Confs C × U → Loop C U
  unfolding each_module create_one
  create_confs = each_module (λ i hook w. create_one i hook.create_conf w)

  pub init_confs : List (CoreModule C U) → Confs C × U → Loop C U
  unfolding each_module init_one
  init_confs = each_module (λ i hook w. init_one i hook.init_conf w)

-- what a load reads of nginx's cycle and constants
pub record Cycle (C U : Type 0) : Type 0 where
  pub core_modules : List (CoreModule C U)
  pub modules : List (Module (ConfFile × (Confs C × U)))
  pub core_module : ℕ
  pub main_conf : ℕ
  pub pool_size : ℕ

-- a load returns whether it went well, and what it leaves
pub data Loaded (C U H : Type 0) : Type 0 where
  loaded : Bool → Dccf C → H → U → Loaded C U H
  stuck : Loaded C U H

module _ {C : Type 0} where
  pub switch : Ctx C → Dccf C → Dccf C
  unfolding set_current
  switch ctx d =
      let emptied = set_current none d in
      set_current (some ctx) (record emptied { used = not d.used })

-- "switch conf to new conf": the pool of the configuration in use
pub destroy_current : {C : Type 0} (pools : Pools) → Option (Ctx C) → pools.Heap → pools.Heap
destroy_current pools none h = h
destroy_current pools (some ctx) h = pools.destroy ctx.pool h

module _ {C U : Type 0} (pools : Pools) where
  -- the label `failed`, with `cf.temp_pool`
  unfoldable pub failed : Option ℕ → ℕ → Dccf C → pools.Heap → U → Loaded C U pools.Heap
  failed none pool d h u = loaded false d (pools.destroy pool h) u
  failed (some temp_pool) pool d h u =
      loaded false d (pools.destroy pool (pools.destroy temp_pool h)) u

  pub after_build : ℕ → ℕ → Dccf C → pools.Heap → Option (Loop C U) → Loaded C U pools.Heap
  unfolding failed switch destroy_current current
  after_build pool temp_pool d h none = stuck
  after_build pool temp_pool d h (some (false, (confs, u))) = failed (some temp_pool) pool d h u
  after_build pool temp_pool d h (some (true, (confs, u))) =
      loaded true (switch (record { module_conf = confs; pool = pool }) d)
        (destroy_current pools (current d) h) u

module _ {C U : Type 0} (memory : List Bytes → Bool) (cycle : Cycle C U) where
  abbrev pub start : ConfFile
  start = record { unread = []; offset = 0; line = 1 }

  -- `ngx_dynamic_conf_parse(&cf, 1)`, as many rounds as the file has bytes and one more
  pub parse : File → Confs C × U → Option (Rc × (ConfFile × (Confs C × U)))
  parse file w =
      parse_loop file memory cycle.modules cycle.core_module cycle.main_conf (suc file.size) true
        (start, w)

  pub parsed : Option (Rc × (ConfFile × (Confs C × U))) → Option (Loop C U)
  parsed none = none
  parsed (some (rc, (f, w))) =
      some (if is_ok rc then init_confs cycle.core_modules w else (false, w))

  pub created : File → Loop C U → Option (Loop C U)
  unfolding parsed parse
  created file (false, w) = some (false, w)
  created file (true, w) = parsed (parse file w)

  -- the modules' functions and the file, on an array of NULLs; `none` where the parser fails to
  -- come to an end
  pub build : File → U → Option (Loop C U)
  unfolding created
  build file u = created file (create_confs cycle.core_modules ((λ i. none), u))

module _ {C U : Type 0} (pools : Pools) (memory : List Bytes → Bool) (cycle : Cycle C U) where
  pub with_temp : File → ℕ → Dccf C → U → Option ℕ × pools.Heap → Loaded C U pools.Heap
  unfolding after_build build failed
  with_temp file pool d u (none, h) = failed pools none pool d h u
  with_temp file pool d u (some temp_pool, h) =
      after_build pools pool temp_pool d h (build memory cycle file u)

  -- `room` is whether there is memory for the structure, its array and the array of words
  unfoldable pub with_pool :
      Bool → File → Dccf C → U → Option ℕ × pools.Heap → Loaded C U pools.Heap
  unfolding with_temp failed
  with_pool room file d u (none, h) = loaded false d h u
  with_pool room file d u (some pool, h) =
      if room
      then with_temp file pool d u (pools.create cycle.pool_size h)
      else failed pools none pool d h u

  unfoldable pub load_conf : Bool → File → Dccf C → pools.Heap → U → Loaded C U pools.Heap
  unfolding with_pool
  load_conf room file d h u = with_pool room file d u (pools.create cycle.pool_size h)
