-- ===== src/EventResolver/Answers.antt =====
-- The answer of each resolution, and its context.
use nginx_toolkit_module.Base.{
  ℕ, ◌≡◌, refl, sym, ap, ◌∙◌, Bool, true, false, some, List, [], ◌∷◌, ◌==◌, if◌then◌else◌, drop,
}
use nginx_toolkit_module.NodePool.{NodePool, content_at, take_node, get_node}
use nginx_toolkit_module.NodePool.Free.{
  Free, InUse, Taken, get_node-Taken, put_node-Free, write-Free, link_exists,
}
use nginx_toolkit_module.EventResolver.{
  ResolverCtx, zero_ctx, Conf, Effect, called, done, bad_done, Started, null, no_resolver, started,
  Request, take_ctx, get_ctx, put_ctx, handler, failed, resolve, with_ctx, start_resolver,
}

get_ctx-Taken :
    (s : NodePool ResolverCtx) (xs : List ℕ)
    → Free s xs
    → (zero_ : ResolverCtx) × (i : ℕ) × (s' : NodePool ResolverCtx) × (get_ctx true s
        ≡ some (some i, s'))
      × Taken zero_ s s' xs i
unfolding get_ctx take_ctx get_node take_node
get_ctx-Taken s [] v =
    let (i, s', e, t) = get_node-Taken zero_ctx s [] v in
    let to = ap (take_ctx true s) v.chain in
    let from = sym (ap (take_node zero_ctx true s) v.chain) in (zero_ctx, i, s', to ∙ from ∙ e, t)
get_ctx-Taken s (i ∷ xs) v =
    let (e, (q, l, c)) = v.chain in
    let (x, g, n) = link_exists s.nodes i l in
    let (j, s', f, t) = get_node-Taken x.content s (i ∷ xs) v in
    let same : take_ctx true s (some i) ≡ take_node x.content true s (some i) =
      rw (take_ctx, take_node, g) in
    let from = sym (ap (take_node x.content true s) e) in
    (x.content, j, s', ap (take_ctx true s) e ∙ same ∙ from ∙ f, t)

-- a context in use that belongs to a request
abbrev pub Waits : Conf → List ℕ → ℕ → Request → Type 0
Waits c xs i r =
    InUse c.ctxs xs i × (content_at c.ctxs i ≡ some (record { handler = r.h; data_ = r.data_ }))

-- What ngx_event_resolver_start_resolver calls: the client, at once, unless nginx takes the name,
-- and behind that ngx_resolve_name_done on the bad pointer where nginx gave no context.
abbrev pub answered : Request → Started → Bool → List Effect
answered r null named = called r.h r.data_ [] ∷ bad_done ∷ []
answered r no_resolver named = called r.h r.data_ [] ∷ bad_done ∷ []
answered r (started ctx) named = if named then [] else called r.h r.data_ [] ∷ []

abbrev pub After : Conf → List ℕ → ℕ → Request → Type 0
After c xs i r = Free c.ctxs xs × Waits c xs i r

resolve-After :
    (n : ℕ) (r : Request) (st : Started) (named : Bool) (c : Conf) (s : NodePool ResolverCtx)
    (xs : List ℕ)
    → Free s xs
    → InUse s xs n
    → content_at s n ≡ some (record { handler = r.h; data_ = r.data_ })
    → (c' : Conf) × (resolve n r st named c s ≡ some (answered r st named, c')) × After c' xs n r
unfolding resolve failed
resolve-After n r null named c s xs v u e = (record c { ctxs = s }, refl, (v, (u, e)))
resolve-After n r no_resolver named c s xs v u e = (record c { ctxs = s }, refl, (v, (u, e)))
resolve-After n r (started ctx) true c s xs v u e = (record c { ctxs = s }, refl, (v, (u, e)))
resolve-After n r (started ctx) false c s xs v u e = (record c { ctxs = s }, refl, (v, (u, e)))

-- With a resolver configured and memory for a context, a resolution that nginx takes answers
-- nothing yet; else the client is called once, with no address. The free list has lost its first
-- context, if it had any, and a context that is not on it holds the client's function and argument
-- and is in use in either case:
-- also where ngx_resolve_name fails, which leaks it, and where nginx gave no context of its own,
-- when the call behind the client's is ngx_resolve_name_done on NULL or NGX_NO_RESOLVER.
pub start_resolver-After :
    (r : Request) (st : Started) (named : Bool) (c : Conf) (resolver : ℕ) (xs : List ℕ)
    → c.resolver ≡ some resolver
    → Free c.ctxs xs
    → (i : ℕ) × (c' : Conf) × (start_resolver true r st named c ≡ some (answered r st named, c'))
      × After c' (drop 1 xs) i r
unfolding start_resolver with_ctx
start_resolver-After r st named c resolver xs e v =
    let (zero_, i, s, f, t) = get_ctx-Taken c.ctxs xs v in
    let x : ResolverCtx = record { handler = r.h; data_ = r.data_ } in
    let (s', w, g, mine, keep, _) = write-Free s (drop 1 xs) i x t.free t.mine in
    let (c', k, a) = resolve-After i r st named c s' (drop 1 xs) g (keep i t.mine) mine in
    let begin_ : start_resolver true r st named c ≡ with_ctx r st named c (get_ctx true c.ctxs) =
      simp (start_resolver, e) in
    let filled : with_ctx r st named c (some (some i, s)) ≡ resolve i r st named c s' =
      rw (with_ctx, w) in
    (i, c', begin_ ∙ ap (with_ctx r st named c) f ∙ filled ∙ k, a)

-- When nginx has the answer, the client is called once, with the addresses or, where the state
-- is an error, with none; nginx's context is done with and the module's is free again.
pub handler-answers :
    (i ctx state : ℕ) (addrs : List ℕ) (r : Request) (c : Conf) (xs : List ℕ)
    → Free c.ctxs xs
    → Waits c xs i r
    → (c' : Conf) × (handler i ctx state addrs c
        ≡ some (called r.h r.data_ (if state == 0 then addrs else []) ∷ done ctx ∷ [], c'))
      × Free c'.ctxs (i ∷ xs)
unfolding handler put_ctx
handler-answers i ctx state addrs r c xs v (u, e) =
    let (s', p, f, _) = put_node-Free c.ctxs xs i v u in
    (record c { ctxs = s' }, rw (handler, e, put_ctx, p), f)
