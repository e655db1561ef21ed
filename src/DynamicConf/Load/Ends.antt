-- ===== src/DynamicConf/Load/Ends.antt =====
-- A load, from its start to its end.
use nginx_toolkit_module.Base.{
  ℕ, ◌≡◌, refl, sym, ap, ◌∙◌, subst, inl, inr, Bool, true, false, not, ◌&&◌, ◌||◌, Option, none,
  some, List, ◌==◌, arith, Bool-cases,
}
use nginx_toolkit_module.Text.{Bytes}
use nginx_toolkit_module.Poold.{Pools}
use nginx_toolkit_module.DynamicConf.Reader.{File}
use nginx_toolkit_module.DynamicConf.Load.{
  Ctx, Dccf, Cycle, Loaded, loaded, current, other, load_conf,
}
use nginx_toolkit_module.DynamicConf.Load.Outcome.{
  is_pool, Kept, Switched, IsValid, Outcome, load_conf-Outcome,
}
use nginx_toolkit_module.DynamicConf.Load.Returns.{Readable, load_conf-Loads}

module _ {C : Type 0} (pools : Pools) where
  -- the pool in use is alive, so it is no new one
  is_pool-fresh :
      (d : Dccf C) (h : pools.Heap) (o : Option (Ctx C)) (p : ℕ)
      → IsValid pools d h
      → current d ≡ o
      → pools.alive h p ≡ false
      → is_pool o p ≡ false
  is_pool-fresh d h none p v e n = refl
  is_pool-fresh d h (some c) p v e n = elim (Bool-cases (p == c.pool)) [
    | inr apart ↦ apart
    | inl same ↦
        let at : p ≡ c.pool = ground (arith, same) in
        absurd (cc (sym n ∙ ap (pools.alive h) at ∙ v.live c e))
  ]

  Switched-IsValid :
      (d : Dccf C) (h : pools.Heap) (d' : Dccf C) (h' : pools.Heap)
      → IsValid pools d h
      → Switched pools d h d' h'
      → IsValid pools d' h'
  Switched-IsValid d h d' h' v s =
      let new : pools.alive h' s.ctx.pool ≡ true =
        s.pools_after s.ctx.pool
        ∙ ap
            (λ z.
              not z
              && (s.ctx.pool == s.ctx.pool
                  || s.ctx.pool == s.temp_pool
                  || pools.alive h s.ctx.pool))
            (is_pool-fresh d h (current d) s.ctx.pool v refl s.new_pool)
        ∙ ground arith in
      record {
        alone = s.alone;
        live = λ ctx e.
            let same : s.ctx ≡ ctx = let q : some s.ctx ≡ some ctx = sym s.in_use ∙ e in cc in
            subst (λ (z : Ctx C). pools.alive h' z.pool ≡ true) same new;
      }

  Kept-IsValid :
      (d : Dccf C) (h : pools.Heap) (d' : Dccf C) (h' : pools.Heap)
      → IsValid pools d h
      → Kept pools d h d' h'
      → IsValid pools d' h'
  Kept-IsValid d h d' h' v k = record {
    alone = subst (λ z. other z ≡ none) (sym k.same) v.alone;
    live = λ ctx e. k.pools_same ctx.pool ∙ v.live ctx (sym (ap current k.same) ∙ e);
  }

module _ {C U : Type 0} (pools : Pools) (memory : List Bytes → Bool) (cycle : Cycle C U) where
  -- a load that has come to an end, and what it leaves
  abbrev pub Ends : Dccf C → pools.Heap → Loaded C U pools.Heap → Type 0
  Ends d h x =
      (fine : Bool) × (d' : Dccf C) × (h' : pools.Heap) × (u' : U) × (x ≡ loaded fine d' h' u')
      × Outcome {U = U} pools d h (loaded fine d' h' u')
      × IsValid pools d' h'

  -- Where the reads give the whole file, which does not change meanwhile, no directive leaves more of
  -- it unread than it found, and the modules' functions neither create nor destroy pools, a load
  -- whose configuration in use has a pool that is alive, or none is in use, and whose other place is
  -- empty, comes to an end. One that fails leaves the configuration in use and the set of live pools as
  -- they were. One that succeeds puts a new configuration in use, with a new pool, empties the
  -- other place, keeps the settings and destroys the pool of the configuration used before; the
  -- pool of the temporary data stays alive behind it. Behind the load the pool of the
  -- configuration in use is alive and the other place empty again.
  pub load_conf-Ends :
      (file : File) (content : Bytes) (room : Bool) (d : Dccf C) (h : pools.Heap) (u : U)
      → Readable memory cycle file content
      → IsValid pools d h
      → Ends d h (load_conf pools memory cycle room file d h u)
  load_conf-Ends file content room d h u r v =
      let (fine, d', h', u', e) = load_conf-Loads memory cycle file content pools r room d h u in
      let out : Outcome {U = U} pools d h (loaded fine d' h' u') =
        subst (Outcome pools d h) e (load_conf-Outcome pools memory cycle room file d h u) in
      (fine, d', h', u', e, out, valid fine d' h' u' out)
    where
      valid :
          (fine : Bool) (d' : Dccf C) (h' : pools.Heap) (u' : U)
          → Outcome {U = U} pools d h (loaded fine d' h' u')
          → IsValid pools d' h'
      valid true d' h' u' out = Switched-IsValid pools d h d' h' v out
      valid false d' h' u' out = Kept-IsValid pools d h d' h' v out
