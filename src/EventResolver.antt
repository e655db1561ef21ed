-- ===== src/EventResolver.antt =====
-- ngx_event_resolver.c: a context for each name that is being resolved. A context is a recycled
-- node, given by its index. What nginx's resolver answers is an argument; a client's handler is
-- recorded as called, and one that starts another resolution is left out.
pub mod Answers
mod Tests
use nginx_toolkit_module.Base.{
  ℕ, ◌+◌, ◌^◌, ◌-◌, Bool, true, false, Option, none, some, List, [], ◌∷◌, ◌++◌, ◌==◌, if◌then◌else◌,
  get_elem?, set, length,
}
use nginx_toolkit_module.NodePool.{
  NodePool, no_nodes, zeroed, decrement, content_at, put_node, write,
}

-- the client's function and its argument, pointers both; `next` is the node's
pub record ResolverCtx : Type 0 where
  pub handler : ℕ
  pub data_ : ℕ

abbrev pub zero_ctx : ResolverCtx
zero_ctx = record { handler = 0; data_ = 0 }

pub record Conf : Type 0 where
  pub resolver_timeout : Option ℕ
  pub resolver : Option ℕ
  pub ctxs : NodePool ResolverCtx

-- The calls out of the module, in order: a client's handler with its argument and the addresses
-- (none where the code passes NULL and 0), ngx_resolve_name_done on a context of nginx, and
-- ngx_resolve_name_done on NULL or NGX_NO_RESOLVER, which follows that pointer: the process ends
-- there, so nothing comes behind it.
pub data Effect : Type 0 where
  called : ℕ → ℕ → List ℕ → Effect
  done : ℕ → Effect
  bad_done : Effect

-- what ngx_resolve_start returns
pub data Started : Type 0 where
  null : Started
  no_resolver : Started
  started : ℕ → Started

-- a name is resolved with the function and argument of the client
pub record Request : Type 0 where
  pub h : ℕ
  pub data_ : ℕ

-- `none` is NGX_CONF_UNSET_MSEC
pub create_conf : Bool → Option Conf
create_conf memory =
    if memory
    then some (record { resolver_timeout = none; resolver = none; ctxs = no_nodes })
    else none

pub init_conf : Conf → Conf
init_conf c = record c {
  resolver_timeout = elim c.resolver_timeout [ none ↦ some 60000 | some t ↦ some t ];
}

-- the directive; `created` is what ngx_resolver_create returns, the result says whether it is
-- accepted
pub event_resolver : Option ℕ → Conf → Bool × Conf
event_resolver created c = elim c.resolver [
  | some _ ↦ (false, c)
  | none ↦ elim created [
    | none ↦ (false, record c { resolver = none })
    | some r ↦ (true, record c { resolver = some r })
  ]
]

pub take_ctx : Bool → NodePool ResolverCtx → Option ℕ → Option (Option ℕ × NodePool ResolverCtx)
take_ctx memory s none =
    if memory
    then some (
      some (length s.nodes),
      record s { nodes = s.nodes ++ (zeroed zero_ctx ∷ []); nalloc = s.nalloc + 1 },
    )
    else some (none, record s { nalloc = s.nalloc + 1 })
take_ctx memory s (some n) = elim (get_elem? s.nodes n) [
  | none ↦ none
  | some x ↦ some (
    some n,
    record s {
      nodes = set s.nodes n (record x { next = none });
      free_node = x.next;
      nfree = decrement s.nfree;
    },
  )
]

-- `memory` is whether ngx_pcalloc returns memory
pub get_ctx : Bool → NodePool ResolverCtx → Option (Option ℕ × NodePool ResolverCtx)
unfolding take_ctx
get_ctx memory s = take_ctx memory s s.free_node

pub put_ctx : ℕ → NodePool ResolverCtx → Option (NodePool ResolverCtx)
put_ctx n s = put_node (some n) s

-- nginx has an answer for its context `ctx`, whose data is the context `n`
pub handler : ℕ → ℕ → ℕ → List ℕ → Conf → Option (List Effect × Conf)
unfolding put_ctx
handler n ctx state addrs c = elim (content_at c.ctxs n) [
  | none ↦ none
  | some x ↦ elim (put_ctx n c.ctxs) [
    | none ↦ none
    | some s ↦ some (
      called x.handler x.data_ (if state == 0 then addrs else []) ∷ done ctx ∷ [],
      record c { ctxs = s },
    )
  ]
]

-- the label failed, where ngx_resolve_start gave no context; the node is not put back, since that
-- call stands behind the one which ends the process
pub failed : Request → Conf → NodePool ResolverCtx → List Effect × Conf
failed r c s = (called r.h r.data_ [] ∷ bad_done ∷ [], record c { ctxs = s })

-- `named` is whether ngx_resolve_name returns NGX_OK; an answer that it has at once is a call of
-- `handler` that follows
pub resolve :
    ℕ → Request → Started → Bool → Conf → NodePool ResolverCtx → Option (List Effect × Conf)
unfolding failed
resolve n r null named c s = some (failed r c s)
resolve n r no_resolver named c s = some (failed r c s)
resolve n r (started ctx) named c s =
    if named
    then some ([], record c { ctxs = s })
    else some (called r.h r.data_ [] ∷ [], record c { ctxs = s })

pub with_ctx :
    Request
    → Started
    → Bool
    → Conf
    → Option (Option ℕ × NodePool ResolverCtx)
    → Option (List Effect × Conf)
unfolding resolve
with_ctx r st named c none = none
with_ctx r st named c (some (none, s)) = some ([], record c { ctxs = s })
with_ctx r st named c (some (some n, s)) =
    elim (write n (record { handler = r.h; data_ = r.data_ }) s) [
      | none ↦ none
      | some s' ↦ resolve n r st named c s'
    ]

pub start_resolver : Bool → Request → Started → Bool → Conf → Option (List Effect × Conf)
unfolding with_ctx get_ctx
start_resolver memory r st named c = elim c.resolver [
  | none ↦ some (called r.h r.data_ [] ∷ [], c)
  | some _ ↦ with_ctx r st named c (get_ctx memory c.ctxs)
]
