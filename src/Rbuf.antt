-- ===== src/Rbuf.antt =====
-- ngx_rbuf.c: chain buffers that are used again. Unused ones are chained through the link's `next`,
-- one list for each size; `map` holds the index of a size's list in `frees`, `using` the buffers
-- that are out. A pointer to a buffer, and to its link, is its index in the order of allocation.
pub mod Valid
pub mod Back
pub mod Gives
pub mod Calls
pub mod Twice
mod Tests
use nginx_toolkit_module.Base.{
  ℕ, ◌+◌, Bool, true, false, Option, none, some, List, [], ◌∷◌, ◌++◌, ◌==◌, if◌then◌else◌,
  get_elem?, set, length,
}
use nginx_toolkit_module.Map.UintMap.{KeyMap}
use nginx_toolkit_module.NodePool.{decrement}

-- The positions are offsets in `alloc`, which has `size` bytes; `file` is a pointer. The link's
-- pointer to the buffer and the buffer's other members belong to the client and are left out.
pub record Buf : Type 0 where
  pub pos : ℕ
  pub last : ℕ
  pub start : ℕ
  pub end_ : ℕ
  pub memory : Bool

pub record Chainbuf : Type 0 where
  pub next : Option ℕ
  pub buf : Buf
  pub file : ℕ
  pub line : ℕ
  pub size : ℕ

abbrev pub zero_buf : Buf
zero_buf = record { pos = 0; last = 0; start = 0; end_ = 0; memory = false }

abbrev pub new_chainbuf : ℕ → Chainbuf
new_chainbuf size = record { next = none; buf = zero_buf; file = 0; line = 0; size = size }

-- what ngx_get_chainbuf_debug writes in every buffer it returns
abbrev pub fresh : ℕ → ℕ → ℕ → Chainbuf → Chainbuf
fresh size file line cb = record cb {
  buf = record { pos = 0; last = 0; start = 0; end_ = size; memory = true };
  file = file;
  line = line;
}

module _ (m : KeyMap ℕ) where
  -- the module's variables, once ngx_rbuf_pool is set
  pub record State : Type 0 where
    pub map : m.Repr
    pub frees : List (Option ℕ)
    pub chains : List Chainbuf
    pub nalloc_node : ℕ
    pub nalloc_chain : ℕ
    pub nfree_chain : ℕ
    pub using : m.Repr
    pub log : List (ℕ × ℕ)

  -- a NULL pointer followed is `fault`
  pub data Run (A : Type 0) : Type 0 where
    ok : A → Option State → Run A
    fault : Run A

  -- `made` is whether ngx_create_pool gives a pool
  pub rbuf_init : Bool → Option State
  rbuf_init made =
      if made
      then some (record {
        map = m.init;
        frees = [];
        chains = [];
        nalloc_node = 0;
        nalloc_chain = 0;
        nfree_chain = 0;
        using = m.init;
        log = [];
      })
      else none

  -- the buffer `c` is `cb`, taken or new
  pub give : ℕ → ℕ → ℕ → ℕ → Chainbuf → State → Run (Option ℕ)
  give size file line c cb s = ok (some c) (
      some (record s {
        chains = set s.chains c (fresh size file line cb);
        using = m.insert s.using c c;
      }))

  -- the list `i` of the buffers of this size begins with `head`
  pub take : Bool → ℕ → ℕ → ℕ → ℕ → State → Option ℕ → Run (Option ℕ)
  unfolding give
  take memory size file line i s (some c) = elim (get_elem? s.chains c) [
    | none ↦ fault
    | some cb ↦
        give size file line c (record cb { next = none })
          (record s { frees = set s.frees i cb.next; nfree_chain = decrement s.nfree_chain })
  ]
  take memory size file line i s none =
      if memory
      then give size file line (length s.chains) (new_chainbuf size) (record s {
        chains = s.chains ++ (new_chainbuf size ∷ []);
        nalloc_chain = s.nalloc_chain + 1;
      })
      else ok none (some s)

  pub take_from : Bool → ℕ → ℕ → ℕ → State → ℕ → Run (Option ℕ)
  unfolding take
  take_from memory size file line s i = elim (get_elem? s.frees i) [
    | none ↦ fault
    | some head ↦ take memory size file line i s head
  ]

  pub get_started : Bool → Bool → ℕ → ℕ → ℕ → Option State → Run (Option ℕ)
  unfolding take_from
  get_started node_memory memory size file line none = fault
  get_started node_memory memory size file line (some s) = elim (m.find s.map size) [
    | some i ↦ take_from memory size file line s i
    | none ↦
        if node_memory
        then take_from memory size file line
            (record s {
              map = m.insert s.map size (length s.frees);
              frees = s.frees ++ (none ∷ []);
              nalloc_node = s.nalloc_node + 1;
            })
            (length s.frees)
        else ok none (some s)
  ]

  -- `node_memory` and `memory` are whether ngx_pcalloc returns memory for a node, for a buffer
  pub get_chainbuf_debug : Bool → Bool → Bool → ℕ → ℕ → ℕ → Option State → Run (Option ℕ)
  unfolding get_started rbuf_init
  get_chainbuf_debug made node_memory memory size file line none =
      get_started node_memory memory size file line (rbuf_init made)
  get_chainbuf_debug made node_memory memory size file line (some s) =
      get_started node_memory memory size file line (some s)

  -- the end of ngx_put_chainbuf_debug
  pub put_used : ℕ → ℕ → ℕ → State → Run (Unit {0})
  put_used c file line s = elim (m.find s.using c) [
    | none ↦ ok tt (some (record s { log = (file, line) ∷ s.log }))
    | some _ ↦ ok tt (some (record s { using = m.delete s.using c }))
  ]

  pub put_free : ℕ → ℕ → ℕ → State → Chainbuf → ℕ → Run (Unit {0})
  unfolding put_used
  put_free c file line s cb i = elim (get_elem? s.frees i) [
    | none ↦ fault
    | some head ↦ put_used c file line (record s {
      chains = set s.chains c (record cb { next = head });
      frees = set s.frees i (some c);
      nfree_chain = s.nfree_chain + 1;
    })
  ]

  pub put_chainbuf_debug : Option ℕ → ℕ → ℕ → Option State → Run (Unit {0})
  unfolding put_free
  put_chainbuf_debug cl file line none = ok tt none
  put_chainbuf_debug none file line (some s) = ok tt (some s)
  put_chainbuf_debug (some c) file line (some s) = elim (get_elem? s.chains c) [
    | none ↦ fault
    | some cb ↦ elim (m.find s.map cb.size) [
      | none ↦ ok tt (some s)
      | some i ↦ put_free c file line s cb i
    ]
  ]

  -- two calls, one after the other
  abbrev pub then_ : {A B : Type 0} → Run A → (A → Option State → Run B) → Run B
  then_ fault f = fault
  then_ (ok x s) f = f x s
