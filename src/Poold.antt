-- ===== src/Poold.antt =====
-- ngx_poold.c: the pools created through the module are recorded by address, with the place in
-- the source that created them. The record of a pool is a node of the recycled nodes; the map
-- holds its index under the pool's address. nginx's pools are the parameter `Pools`.
pub mod Calls
pub mod Numbered
mod Tests
use nginx_toolkit_module.Base.{
  ℕ, ◌≡◌, ◌≢◌, Bool, true, false, Option, none, some, ◌==◌, if◌then◌else◌,
}
use nginx_toolkit_module.Map.UintMap.{KeyMap}
use nginx_toolkit_module.NodePool.{NodePool, no_nodes, get_node, put_node, write}

-- `raw_key` is the map node's key; `pool` is `none` where NULL, `file` a pointer
pub record PoolNode : Type 0 where
  pub raw_key : ℕ
  pub pool : Option ℕ
  pub file : ℕ
  pub line : ℕ

abbrev pub zero_node : PoolNode
zero_node = record { raw_key = 0; pool = none; file = 0; line = 0 }

-- ngx_create_pool and ngx_destroy_pool: a new pool has an address that no live pool has
pub record Pools : Type 1 where
  pub Heap : Type 0
  pub create : ℕ → Heap → Option ℕ × Heap
  pub destroy : ℕ → Heap → Heap
  pub alive : Heap → ℕ → Bool
  pub create_fresh :
      (size : ℕ) (h h' : Heap) (p : ℕ) → create size h ≡ (some p, h') → alive h p ≡ false
  pub alive-create :
      (size : ℕ) (h h' : Heap) (p q : ℕ)
      → create size h ≡ (some p, h')
      → alive h' q ≡ (if q == p then true else alive h q)
  pub alive-create_none :
      (size : ℕ) (h h' : Heap) (q : ℕ) → create size h ≡ (none, h') → alive h' q ≡ alive h q
  pub alive-destroy :
      (p q : ℕ) (h : Heap) → alive (destroy p h) q ≡ (if q == p then false else alive h q)

-- the pointer as a number
abbrev pub address : Option ℕ → ℕ
address none = 0
address (some p) = p

module _ (m : KeyMap ℕ) (pools : Pools) where
  -- the module's variables, once ngx_poold_pool is set
  pub record State : Type 0 where
    pub map : m.Repr
    pub nodes : NodePool PoolNode

  -- a NULL pointer followed is `fault`
  pub data Run (A : Type 0) : Type 0 where
    ok : A → pools.Heap → Option State → Run A
    fault : Run A

  pub poold_init : pools.Heap → Option State × pools.Heap
  poold_init h =
      let (p, h') = pools.create 4096 h in
      (elim p [ none ↦ none | some _ ↦ some (record { map = m.init; nodes = no_nodes }) ], h')

  -- the members of the node `n`, and its place in the map; `p` is what ngx_create_pool returns
  pub record_pool : ℕ → ℕ → State → ℕ → NodePool PoolNode → Option ℕ × pools.Heap → Run (Option ℕ)
  record_pool file line s n nodes (p, h) =
      let x : PoolNode = record { raw_key = address p; pool = p; file = file; line = line } in
      elim (write n x nodes) [
        | none ↦ fault
        | some nodes' ↦
            ok p h (some (record { map = m.insert s.map (address p) n; nodes = nodes' }))
      ]

  -- with the node that ngx_poold_get_node returns
  pub with_node :
      ℕ → ℕ → ℕ → pools.Heap → State → Option (Option ℕ × NodePool PoolNode) → Run (Option ℕ)
  unfolding record_pool
  with_node size file line h s none = fault
  with_node size file line h s (some (none, nodes)) = fault
  with_node size file line h s (some (some n, nodes)) =
      record_pool file line s n nodes (pools.create size h)

  pub create_started : Bool → ℕ → ℕ → ℕ → Option State × pools.Heap → Run (Option ℕ)
  unfolding with_node
  create_started memory size file line (none, h) = fault
  create_started memory size file line (some s, h) =
      with_node size file line h s (get_node zero_node memory s.nodes)

  -- `memory` is whether ngx_pcalloc returns memory
  pub create_pool_debug : Bool → ℕ → ℕ → ℕ → pools.Heap → Option State → Run (Option ℕ)
  unfolding create_started poold_init
  create_pool_debug memory size file line h none =
      create_started memory size file line (poold_init h)
  create_pool_debug memory size file line h (some s) =
      create_started memory size file line (some s, h)

  -- before the first pool the map is all zeros, and empty
  pub destroy_pool_debug : ℕ → pools.Heap → Option State → Run (Unit {0})
  destroy_pool_debug pool h none = ok tt h none
  destroy_pool_debug pool h (some s) = elim (m.find s.map pool) [
    | none ↦ ok tt h (some s)
    | some n ↦ elim (put_node (some n) s.nodes) [
      | none ↦ fault
      | some nodes ↦
          ok tt (pools.destroy pool h) (some (record { map = m.delete s.map pool; nodes = nodes }))
    ]
  ]
