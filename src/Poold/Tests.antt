-- ===== src/Poold/Tests.antt =====
-- Pools at the addresses 1, 2, 3, ... in the order of creation.
use nginx_toolkit_module.Base.{ℕ, ◌≡◌, refl, true, ◌||◌, ◌&&◌, not, none, some, [], ◌∷◌, ◌==◌}
use nginx_toolkit_module.Map.Functions.{functions}
use nginx_toolkit_module.Poold.Numbered.{Heap, destroy, pools, nothing, later}
use nginx_toolkit_module.Poold.{State, ok, create_pool_debug, destroy_pool_debug}
use nginx_toolkit_module.Poold.Calls.{
  registered, IsValid, create_pool_debug-IsValid, destroy_pool_debug-IsValid,
  create_pool_debug_first,
}

-- the module's own pool is 1, the first one recorded 2
abbrev h2 : Heap
h2 = later 100 (later 4096 nothing)

first :
    (s' : State functions pools) × (create_pool_debug functions pools true 100 7 8 nothing none
      ≡ ok (some 2) h2 (some s'))
    × IsValid functions pools h2 s' []
    × ((q : ℕ) → registered functions pools s' q ≡ (q == 2))
first =
    create_pool_debug_first functions pools nothing (later 4096 nothing) h2 1 100 2 7 8 refl refl

create_pool_debug-IsValid_example :
    (s' : State functions pools) × (create_pool_debug functions pools true 100 7 8 h2 (some first.0)
      ≡ ok (some 3) (later 100 h2) (some s'))
    × IsValid functions pools (later 100 h2) s' []
    × ((q : ℕ) → registered functions pools s' q ≡ (q == 3 || registered functions pools first.0 q))
create_pool_debug-IsValid_example =
    create_pool_debug-IsValid functions pools h2 (later 100 h2) first.0 [] 100 3 7 8 first.2 refl

destroy_pool_debug-IsValid_example :
    (n : ℕ) × (s' : State functions pools) × (destroy_pool_debug functions pools 2 h2 (some first.0)
      ≡ ok tt (destroy 2 h2) (some s'))
    × (h2.live 2 ≡ true)
    × IsValid functions pools (destroy 2 h2) s' (n ∷ [])
    × ((q : ℕ)
        → registered functions pools s' q ≡ (not (q == 2) && registered functions pools first.0 q))
destroy_pool_debug-IsValid_example =
    destroy_pool_debug-IsValid functions pools h2 first.0 [] 2 first.2 (first.3 2)
