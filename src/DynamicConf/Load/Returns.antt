-- ===== src/DynamicConf/Load/Returns.antt =====
-- A load comes to an end.
use nginx_toolkit_module.Base.{ℕ, ◌≡◌, refl, ap, Bool, true, false, Option, none, some, List, arith}
use nginx_toolkit_module.Text.{Bytes}
use nginx_toolkit_module.Poold.{Pools}
use nginx_toolkit_module.DynamicConf.Reader.{File}
use nginx_toolkit_module.DynamicConf.Reader.Rounds.{IsFile}
use nginx_toolkit_module.DynamicConf.Parse.Returns.{Steady, Bounded, parse_loop-returns}
use nginx_toolkit_module.DynamicConf.Load.{
  Dccf, Loop, Cycle, Loaded, loaded, failed, after_build, with_temp, with_pool, load_conf, parse,
  parsed, created, build, create_confs, start,
}

module _ {C U : Type 0} (memory : List Bytes → Bool) (cycle : Cycle C U) (file : File)
    (content : Bytes) where
  -- the file does not change while it is read, and no directive leaves more of it than it found
  pub record Readable : Type 0 where
    pub is_file : IsFile file content
    pub steady : Steady memory file content cycle.modules cycle.core_module cycle.main_conf

  created-returns :
      Readable → (x : Loop C U) → (y : Loop C U) × (created memory cycle file x ≡ some y)
  unfolding created parsed parse
  created-returns r (false, w) = (_, refl)
  created-returns r (true, w) =
      let bounded : Bounded memory file content cycle.modules cycle.core_module cycle.main_conf
          file.size (start memory cycle, w) =
        (omega arith, omega (arith, r.is_file.full)) in
      let (rc, (f, w'), e) =
        parse_loop-returns memory file content cycle.modules cycle.core_module cycle.main_conf
          file.size true (start memory cycle, w) r.is_file r.steady bounded in
      (_, ap (parsed memory cycle) e)

  pub build-returns : Readable → (u : U) → (y : Loop C U) × (build memory cycle file u ≡ some y)
  unfolding build
  build-returns r u = created-returns r (create_confs cycle.core_modules ((λ i. none), u))

  module _ (pools : Pools) where
    -- the result of a load
    abbrev pub Loads : Loaded C U pools.Heap → Type 0
    Loads x = (fine : Bool) × (d : Dccf C) × (h : pools.Heap) × (u : U) × (x ≡ loaded fine d h u)

    failed-Loads :
        (t : Option ℕ) (p : ℕ) (d : Dccf C) (h : pools.Heap) (u : U)
        → Loads (failed pools t p d h u)
    unfolding failed
    failed-Loads none p d h u = (_, _, _, _, refl)
    failed-Loads (some t) p d h u = (_, _, _, _, refl)

    after_build-Loads :
        (p t : ℕ) (d : Dccf C) (h : pools.Heap) (x : Loop C U)
        → Loads (after_build pools p t d h (some x))
    unfolding after_build
    after_build-Loads p t d h (false, (confs, u)) = failed-Loads (some t) p d h u
    after_build-Loads p t d h (true, (confs, u)) = (_, _, _, _, refl)

    with_temp-Loads :
        Readable
        → (p : ℕ) (d : Dccf C) (u : U) (x : Option ℕ × pools.Heap)
        → Loads (with_temp pools memory cycle file p d u x)
    unfolding with_temp
    with_temp-Loads r p d u (none, h) = failed-Loads none p d h u
    with_temp-Loads r p d u (some t, h) =
        let (y, e) = build-returns r u in rw (with_temp, e) (after_build-Loads p t d h y)

    with_pool-Loads :
        Readable
        → (room : Bool) (d : Dccf C) (u : U) (x : Option ℕ × pools.Heap)
        → Loads (with_pool pools memory cycle room file d u x)
    unfolding with_pool
    with_pool-Loads r room d u (none, h) = (_, _, _, _, refl)
    with_pool-Loads r true d u (some p, h) =
        with_temp-Loads r p d u (pools.create cycle.pool_size h)
    with_pool-Loads r false d u (some p, h) = failed-Loads none p d h u

    pub load_conf-Loads :
        Readable
        → (room : Bool) (d : Dccf C) (h : pools.Heap) (u : U)
        → Loads (load_conf pools memory cycle room file d h u)
    unfolding load_conf
    load_conf-Loads r room d h u = with_pool-Loads r room d u (pools.create cycle.pool_size h)
