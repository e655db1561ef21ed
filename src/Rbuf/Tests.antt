-- ===== src/Rbuf/Tests.antt =====
-- Buffers of 100 bytes, from the first call on.
use nginx_toolkit_module.Base.{
  ℕ, ◌≡◌, ◌∙◌, arith, true, none, some, [], ◌∷◌, ◌==◌, if◌then◌else◌, get_elem?,
}
use nginx_toolkit_module.Map.Functions.{functions}
use nginx_toolkit_module.Rbuf.{Chainbuf, State, ok, get_chainbuf_debug, put_chainbuf_debug}
use nginx_toolkit_module.Rbuf.Valid.{updated}
use nginx_toolkit_module.Rbuf.Calls.{
  init-IsValid, get_chainbuf_debug-Gives, put_chainbuf_debug-IsValid,
}
use nginx_toolkit_module.Rbuf.Gives.{Valid, Gives}
use nginx_toolkit_module.Rbuf.Twice.{puts_gets, put_chainbuf_debug_twice}

abbrev empty : State functions
empty = record {
  map = functions.init;
  frees = [];
  chains = [];
  nalloc_node = 0;
  nalloc_chain = 0;
  nfree_chain = 0;
  using = functions.init;
  log = [];
}

first : Gives functions empty 100 (get_chainbuf_debug functions true true true 100 1 2 (some empty))
first = get_chainbuf_debug-Gives functions true 100 1 2 empty (λ k. []) (init-IsValid functions)

out_first : functions.find first.state.using first.chain ≡ some first.chain
out_first = first.out first.chain ∙ ground arith

put_chainbuf_debug-IsValid_example :
    (cb : Chainbuf) × (s' : State functions) × (get_elem? first.state.chains first.chain ≡ some cb)
    × (put_chainbuf_debug functions (some first.chain) 1 3 (some first.state) ≡ ok tt (some s'))
    × Valid functions s' (updated first.free cb.size (first.chain ∷ first.free cb.size))
    × ((a : ℕ)
        → functions.find s'.using a
          ≡ (if a == first.chain then none else functions.find first.state.using a))
put_chainbuf_debug-IsValid_example =
    put_chainbuf_debug-IsValid functions first.chain first.chain 1 3 first.state first.free
      first.valid out_first

put_chainbuf_debug_twice_example :
    (cb : Chainbuf) × (s' : State functions) × (get_elem? first.state.chains first.chain ≡ some cb)
    × (puts_gets functions first.chain cb.size 1 3 1 4 (some first.state)
        ≡ ok (some first.chain, some first.chain) (some s'))
    × (s'.log ≡ (1, 4) ∷ first.state.log)
put_chainbuf_debug_twice_example =
    put_chainbuf_debug_twice functions first.chain first.chain 1 3 1 4 first.state first.free
      first.valid out_first
