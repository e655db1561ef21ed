-- ===== src/DynamicConf/Load/Outcome.antt =====
-- What a load leaves: the old configuration, or the new one in its place.
use nginx_toolkit_module.Base.{
  ℕ, ◌≡◌, ◌≢◌, refl, sym, ap, ◌∙◌, inl, inr, Bool, true, false, not, ◌||◌, ◌&&◌, Option, none, some,
  List, arith, ◌==◌, if◌then◌else◌, Bool-cases, if_true, if_false,
}
use nginx_toolkit_module.Text.{Bytes}
use nginx_toolkit_module.Poold.{Pools}
use nginx_toolkit_module.DynamicConf.Reader.{File}
use nginx_toolkit_module.DynamicConf.Load.{
  Ctx, Dccf, Loop, Cycle, current, other, Loaded, loaded, stuck, failed, destroy_current, switch,
  after_build, with_temp, with_pool, load_conf, build,
}

module _ (pools : Pools) where
  -- creating a pool and destroying it again
  undo_create :
      (size p q : ℕ) (h h' : pools.Heap)
      → pools.create size h ≡ (some p, h')
      → pools.alive (pools.destroy p h') q ≡ pools.alive h q
  undo_create size p q h h' e = pools.alive-destroy p q h' ∙ elim (Bool-cases (q == p)) [
    | inl same ↦
        let at : q ≡ p = ground arith in
        if_true false (pools.alive h' q) same
        ∙ sym (pools.create_fresh size h h' p e)
        ∙ ap (λ z. pools.alive h z) (sym at)
    | inr apart ↦
        if_false false (pools.alive h' q) apart
        ∙ pools.alive-create size h h' p q e
        ∙ if_false true (pools.alive h q) apart
  ]

  alive_both :
      (size p t q : ℕ) (h h1 h2 : pools.Heap)
      → pools.create size h ≡ (some p, h1)
      → pools.create size h1 ≡ (some t, h2)
      → pools.alive h2 q ≡ (q == p || q == t || pools.alive h q)
  alive_both size p t q h h1 h2 e f =
      pools.alive-create size h1 h2 t q f
      ∙ ap (λ z. if q == t then true else z) (pools.alive-create size h h1 p q e)
      ∙ ground arith

  two_fresh :
      (size p t : ℕ) (h h1 h2 : pools.Heap)
      → pools.create size h ≡ (some p, h1)
      → pools.create size h1 ≡ (some t, h2)
      → (pools.alive h t ≡ false) × (p ≢ t)
  two_fresh size p t h h1 h2 e f =
      let a = pools.create_fresh size h1 h2 t f in
      let b = pools.alive-create size h h1 p t e in
      let c = pools.alive-create size h h1 p p e in
      elim (Bool-cases (t == p)) [
        | inl same ↦ absurd (cc (if_true true (pools.alive h t) same))
        | inr apart ↦
            let q : p ≢ t = ground arith in
            (sym (if_false true (pools.alive h t) apart) ∙ sym b ∙ a, q)
      ]

module _ {C : Type 0} where
  abbrev pub is_pool : Option (Ctx C) → ℕ → Bool
  is_pool none q = false
  is_pool (some ctx) q = q == ctx.pool

  current-switch : (c : Ctx C) (d : Dccf C) → current (switch c d) ≡ some c
  unfolding current switch
  current-switch c d = ground arith

  other-switch : (c : Ctx C) (d : Dccf C) → other (switch c d) ≡ none
  unfolding other switch
  other-switch c d = ground arith

  settings-switch :
      (c : Ctx C) (d : Dccf C)
      → ((switch c d).refresh ≡ d.refresh)
        × ((switch c d).file_name ≡ d.file_name)
        × ((switch c d).md5key ≡ d.md5key)
  unfolding switch
  settings-switch c d = ground arith

  alive-destroy_current :
      (pools : Pools) (o : Option (Ctx C)) (q : ℕ) (h : pools.Heap)
      → pools.alive (destroy_current pools o h) q ≡ (not (is_pool o q) && pools.alive h q)
  unfolding destroy_current
  alive-destroy_current pools none q h = refl
  alive-destroy_current pools (some ctx) q h = pools.alive-destroy ctx.pool q h ∙ ground arith

module _ {C : Type 0} (pools : Pools) where
  -- a new configuration in use, and no other; the pool of the last one is gone, and two pools are
  -- new: that of the configuration, and one that nothing keeps
  pub record Switched (d : Dccf C) (h : pools.Heap) (d' : Dccf C) (h' : pools.Heap) : Type 0 where
    pub ctx : Ctx C
    pub temp_pool : ℕ
    pub in_use : current d' ≡ some ctx
    pub alone : other d' ≡ none
    pub settings : (d'.refresh ≡ d.refresh) × (d'.file_name ≡ d.file_name) × (d'.md5key ≡ d.md5key)
    pub new_pool : pools.alive h ctx.pool ≡ false
    pub new_temp : pools.alive h temp_pool ≡ false
    pub apart : ctx.pool ≢ temp_pool
    pub pools_after :
        (q : ℕ)
        → pools.alive h' q
          ≡ (not (is_pool (current d) q) && (q == ctx.pool || q == temp_pool || pools.alive h q))

  -- the old configuration in use, and the pools as they were
  pub record Kept (d : Dccf C) (h : pools.Heap) (d' : Dccf C) (h' : pools.Heap) : Type 0 where
    pub same : d' ≡ d
    pub pools_same : (q : ℕ) → pools.alive h' q ≡ pools.alive h q

  -- the configuration in use has a live pool, and the other place is empty
  pub record IsValid (d : Dccf C) (h : pools.Heap) : Type 0 where
    pub alone : other d ≡ none
    pub live : (ctx : Ctx C) → current d ≡ some ctx → pools.alive h ctx.pool ≡ true

module _ {C U : Type 0} (pools : Pools) where
  abbrev pub Outcome : Dccf C → pools.Heap → Loaded C U pools.Heap → Type 0
  Outcome d h (loaded true d' h' u) = Switched pools d h d' h'
  Outcome d h (loaded false d' h' u) = Kept pools d h d' h'
  Outcome d h stuck = Unit

  module _ (memory : List Bytes → Bool) (cycle : Cycle C U) where
    Outcome-after_build :
        (d : Dccf C) (h h1 h2 : pools.Heap) (p t : ℕ) (built : Option (Loop C U))
        → pools.create cycle.pool_size h ≡ (some p, h1)
        → pools.create cycle.pool_size h1 ≡ (some t, h2)
        → Outcome d h (after_build pools p t d h2 built)
    unfolding after_build
    Outcome-after_build d h h1 h2 p t none e f = tt
    Outcome-after_build d h h1 h2 p t (some (false, (confs, u))) e f = record {
      same = refl;
      pools_same = λ q.
          pools.alive-destroy p q (pools.destroy t h2)
          ∙ ap (λ z. if q == p then false else z) (undo_create pools cycle.pool_size t q h1 h2 f)
          ∙ sym (pools.alive-destroy p q h1)
          ∙ undo_create pools cycle.pool_size p q h h1 e;
    }
    Outcome-after_build d h h1 h2 p t (some (true, (confs, u))) e f =
        let ctx : Ctx C = record { module_conf = confs; pool = p } in
        let (fresh_temp, apart) = two_fresh pools cycle.pool_size p t h h1 h2 e f in
        record {
          ctx = ctx;
          temp_pool = t;
          in_use = current-switch ctx d;
          alone = other-switch ctx d;
          settings = settings-switch ctx d;
          new_pool = pools.create_fresh cycle.pool_size h h1 p e;
          new_temp = fresh_temp;
          apart = apart;
          pools_after = λ q.
              alive-destroy_current pools (current d) q h2
              ∙ ap (λ z. not (is_pool (current d) q) && z)
                  (alive_both pools cycle.pool_size p t q h h1 h2 e f);
        }

    Outcome-with_temp :
        (file : File) (d : Dccf C) (u : U) (h h1 : pools.Heap) (p : ℕ) (x : Option ℕ × pools.Heap)
        → pools.create cycle.pool_size h ≡ (some p, h1)
        → pools.create cycle.pool_size h1 ≡ x
        → Outcome d h (with_temp pools memory cycle file p d u x)
    unfolding with_temp failed
    Outcome-with_temp file d u h h1 p (none, h2) e f = record {
      same = refl;
      pools_same = λ q.
          pools.alive-destroy p q h2
          ∙ ap (λ z. if q == p then false else z)
              (pools.alive-create_none cycle.pool_size h1 h2 q f)
          ∙ sym (pools.alive-destroy p q h1)
          ∙ undo_create pools cycle.pool_size p q h h1 e;
    }
    Outcome-with_temp file d u h h1 p (some t, h2) e f =
        Outcome-after_build d h h1 h2 p t (build memory cycle file u) e f

    Outcome-with_pool :
        (room : Bool) (file : File) (d : Dccf C) (u : U) (h : pools.Heap)
        (x : Option ℕ × pools.Heap)
        → pools.create cycle.pool_size h ≡ x
        → Outcome d h (with_pool pools memory cycle room file d u x)
    unfolding with_pool failed
    Outcome-with_pool room file d u h (none, h1) e = record {
      same = refl;
      pools_same = λ q. pools.alive-create_none cycle.pool_size h h1 q e;
    }
    Outcome-with_pool true file d u h (some p, h1) e =
        Outcome-with_temp file d u h h1 p (pools.create cycle.pool_size h1) e refl
    Outcome-with_pool false file d u h (some p, h1) e = record {
      same = refl;
      pools_same = λ q. undo_create pools cycle.pool_size p q h h1 e;
    }

    -- what a load that comes to an end leaves
    pub load_conf-Outcome :
        (room : Bool) (file : File) (d : Dccf C) (h : pools.Heap) (u : U)
        → Outcome d h (load_conf pools memory cycle room file d h u)
    unfolding load_conf
    load_conf-Outcome room file d h u =
        Outcome-with_pool room file d u h (pools.create cycle.pool_size h) refl
