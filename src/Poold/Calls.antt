-- ===== src/Poold/Calls.antt =====
-- The record of pools through the calls of ngx_poold.c.
use nginx_toolkit_module.Base.{
  ℕ, ◌≡◌, refl, sym, ap, ◌∙◌, inl, inr, Bool, true, false, ◌||◌, ◌&&◌, not, Option, none, some,
  List, [], ◌∷◌, ◌==◌, arith, drop, Bool-cases, Option-cases, if_true, if_false,
}
use nginx_toolkit_module.Map.UintMap.{KeyMap}
use nginx_toolkit_module.NodePool.{no_nodes}
use nginx_toolkit_module.NodePool.Tracked.{
  Tracked, Tracked-init, find-insert_new, get_node-Tracked, put_node-Tracked,
}
use nginx_toolkit_module.Poold.{
  PoolNode, zero_node, Pools, State, ok, poold_init, record_pool, with_node, create_started,
  create_pool_debug, destroy_pool_debug,
}

abbrev pub is_some : Option ℕ → Bool
is_some none = false
is_some (some _) = true

abbrev key_of : PoolNode → Option ℕ
key_of x = x.pool

module _ (m : KeyMap ℕ) (pools : Pools) where
  -- whether the module has a pool on record
  abbrev pub registered : State m pools → ℕ → Bool
  registered s p = is_some (m.find s.map p)

  -- Every pool on record is alive, and has a node in use of its own, which holds its address; the
  -- nodes `xs` are free.
  pub record IsValid (h : pools.Heap) (s : State m pools) (xs : List ℕ) : Type 0 where
    pub tracked : Tracked m key_of s.map s.nodes xs
    pub live : (k : ℕ) → registered s k ≡ true → pools.alive h k ≡ true

  find_dead :
      (h : pools.Heap) (s : State m pools) (xs : List ℕ) (p : ℕ)
      → IsValid h s xs
      → pools.alive h p ≡ false
      → m.find s.map p ≡ none
  find_dead h s xs p v dead = elim (Option-cases (m.find s.map p)) [
    | inl e ↦ e
    | inr (n, e) ↦ absurd (cc (v.live p (ap is_some e)))
  ]

  registered-insert :
      (r : m.Repr) (k n j : ℕ)
      → m.find r k ≡ none
      → is_some (m.find (m.insert r k n) j) ≡ (j == k || is_some (m.find r j))
  registered-insert r k n j e = ap is_some (find-insert_new m key_of r k n j e) ∙ ground arith

  registered-delete :
      (r : m.Repr) (k j : ℕ)
      → is_some (m.find (m.delete r k) j) ≡ (not (j == k) && is_some (m.find r j))
  registered-delete r k j = ap is_some (m.find-delete r k j) ∙ ground arith

  live-create :
      (h h' : pools.Heap) (size p k : ℕ) (old : Bool)
      → pools.create size h ≡ (some p, h')
      → (old ≡ true → pools.alive h k ≡ true)
      → (k == p || old) ≡ true
      → pools.alive h' k ≡ true
  live-create h h' size p k old made l e =
      pools.alive-create size h h' p k made ∙ elim (Bool-cases (k == p)) [
        | inl q ↦ if_true true (pools.alive h k) q
        | inr q ↦ if_false true (pools.alive h k) q ∙ l (ground arith)
      ]

  live-destroy :
      (h : pools.Heap) (p k : ℕ) (old : Bool)
      → (old ≡ true → pools.alive h k ≡ true)
      → (not (k == p) && old) ≡ true
      → pools.alive (pools.destroy p h) k ≡ true
  live-destroy h p k old l e = pools.alive-destroy p k h ∙ elim (Bool-cases (k == p)) [
    | inl q ↦ absurd (ground arith)
    | inr q ↦ if_false false (pools.alive h k) q ∙ l (ground arith)
  ]

  -- Where ngx_create_pool gives a pool and there is memory for a node, ngx_create_pool_debug
  -- returns that pool and puts it on record besides the pools that were; every pool on record is
  -- alive again, each with a node of its own, and a free node was used if there was one.
  pub create_pool_debug-IsValid :
      (h h' : pools.Heap) (s : State m pools) (xs : List ℕ) (size p file line : ℕ)
      → IsValid h s xs
      → pools.create size h ≡ (some p, h')
      → (s' : State m pools) × (create_pool_debug m pools true size file line h (some s)
          ≡ ok (some p) h' (some s'))
        × IsValid h' s' (drop 1 xs)
        × ((q : ℕ) → registered s' q ≡ (q == p || registered s q))
  unfolding create_pool_debug create_started with_node record_pool
  create_pool_debug-IsValid h h' s xs size p file line v made =
      let new = find_dead h s xs p v (pools.create_fresh size h h' p made) in
      let x : PoolNode = record { raw_key = p; pool = some p; file = file; line = line } in
      let (i, ns, ns', e, w, t, _, _, _) =
        get_node-Tracked m key_of s.map zero_node x s.nodes xs p v.tracked new refl in
      let reg = λ (q : ℕ). registered-insert s.map p i q new in
      (
        record { map = m.insert s.map p i; nodes = ns' },
        ap (with_node m pools size file line h s) e
            ∙ ap (record_pool m pools file line s i ns) made
            ∙ rw (record_pool, w),
        record {
          tracked = t;
          live =
              λ k g. live-create h h' size p k (registered s k) made (v.live k) (sym (reg k) ∙ g);
        },
        reg,
      )

  -- Destroying a pool on record calls ngx_destroy_pool on it while it is alive, takes it, and no
  -- other, off the record and makes its node the first free one.
  pub destroy_pool_debug-IsValid :
      (h : pools.Heap) (s : State m pools) (xs : List ℕ) (p : ℕ)
      → IsValid h s xs
      → registered s p ≡ true
      → (n : ℕ) × (s' : State m pools) × (destroy_pool_debug m pools p h (some s)
          ≡ ok tt (pools.destroy p h) (some s'))
        × (pools.alive h p ≡ true)
        × IsValid (pools.destroy p h) s' (n ∷ xs)
        × ((q : ℕ) → registered s' q ≡ (not (q == p) && registered s q))
  unfolding destroy_pool_debug
  destroy_pool_debug-IsValid h s xs p v on = elim (Option-cases (m.find s.map p)) [
    | inl none_ ↦ absurd (cc (ap is_some none_))
    | inr (n, e) ↦
        let (ns, w, t, _, _) = put_node-Tracked m key_of s.map s.nodes xs p n v.tracked e in
        let reg = λ (q : ℕ). registered-delete s.map p q in
        (
          n,
          record { map = m.delete s.map p; nodes = ns },
          rw (destroy_pool_debug, e, w),
          v.live p on,
          record {
            tracked = t;
            live = λ k g. live-destroy h p k (registered s k) (v.live k) (sym (reg k) ∙ g);
          },
          reg,
        )
  ]

  -- Destroying what is not on record, a pool destroyed before among them, does nothing: nginx's
  -- pools and the module's variables stay as they were.
  pub destroy_pool_debug_twice :
      (h : pools.Heap) (s : State m pools) (p : ℕ)
      → registered s p ≡ false
      → destroy_pool_debug m pools p h (some s) ≡ ok tt h (some s)
  unfolding destroy_pool_debug
  destroy_pool_debug_twice h s p off = elim (Option-cases (m.find s.map p)) [
    | inl none_ ↦ rw (destroy_pool_debug, none_)
    | inr (n, e) ↦ absurd (cc (ap is_some e))
  ]

  -- The first call of ngx_create_pool_debug, where nginx gives the module a pool of its own and
  -- then the pool asked for, leaves that pool alone on record.
  pub create_pool_debug_first :
      (h h1 h2 : pools.Heap) (own size p file line : ℕ)
      → pools.create 4096 h ≡ (some own, h1)
      → pools.create size h1 ≡ (some p, h2)
      → (s' : State m pools) × (create_pool_debug m pools true size file line h none
          ≡ ok (some p) h2 (some s'))
        × IsValid h2 s' []
        × ((q : ℕ) → registered s' q ≡ (q == p))
  unfolding create_pool_debug poold_init
  create_pool_debug_first h h1 h2 own size p file line first made =
      let s : State m pools = record { map = m.init; nodes = no_nodes } in
      let none_ = λ (q : ℕ). ap is_some (m.find-init q) in
      let v : IsValid h1 s [] = record {
        tracked = Tracked-init m key_of;
        live = λ k g. absurd (cc (none_ k));
      } in
      let (s', e, v', reg) = create_pool_debug-IsValid h1 h2 s [] size p file line v made in
      (s', rw (create_pool_debug, poold_init, first) e, v', λ q. reg q ∙ ground (arith, none_ q))
