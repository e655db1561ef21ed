-- ===== src/EventResolver/Tests.antt =====
-- A resolver without contexts yet.
use nginx_toolkit_module.Base.{ℕ, ◌≡◌, refl, true, false, some, []}
use nginx_toolkit_module.NodePool.{no_nodes}
use nginx_toolkit_module.NodePool.Free.{no_nodes-Free}
use nginx_toolkit_module.EventResolver.{Conf, Request, started, start_resolver}
use nginx_toolkit_module.EventResolver.Answers.{answered, After, start_resolver-After}

abbrev ready : Conf
ready = record { resolver_timeout = some 60000; resolver = some 1; ctxs = no_nodes }

abbrev client : Request
client = record { h = 7; data_ = 8 }

start_resolver-After_example :
    (i : ℕ) × (c' : Conf) × (start_resolver true client (started 3) false ready
      ≡ some (answered client (started 3) false, c'))
    × After c' [] i client
start_resolver-After_example =
    start_resolver-After client (started 3) false ready 1 [] refl no_nodes-Free

-- a resolution that nginx takes
pending :
    (i : ℕ) × (c' : Conf) × (start_resolver true client (started 3) true ready
      ≡ some (answered client (started 3) true, c'))
    × After c' [] i client
pending = start_resolver-After client (started 3) true ready 1 [] refl no_nodes-Free
