-- ===== src/Rbuf/Twice.antt =====
-- A buffer put back twice.
use nginx_toolkit_module.Base.{
  ℕ, ◌+◌, ◌≡◌, refl, ◌∙◌, true, Option, none, some, List, ◌∷◌, arith, get_elem?, set,
  get_elem?-set_self,
}
use nginx_toolkit_module.Map.UintMap.{KeyMap}
use nginx_toolkit_module.NodePool.{decrement}
use nginx_toolkit_module.NodePool.Free.{lt-length_of_elem}
use nginx_toolkit_module.Rbuf.{
  Chainbuf, State, Run, ok, fresh, give, take, take_from, get_started, get_chainbuf_debug, put_used,
  put_free, put_chainbuf_debug, then_,
}
use nginx_toolkit_module.Rbuf.Gives.{Valid}

module _ (m : KeyMap ℕ) where
  -- `c` is a buffer whose size has the list `i`
  record Place (s : State m) (i c : ℕ) (cb : Chainbuf) : Type 0 where
    at : get_elem? s.chains c ≡ some cb
    listed : m.find s.map cb.size ≡ some i

  abbrev linked : State m → ℕ → ℕ → Chainbuf → Option ℕ → State m
  linked s i c cb head = record s {
    chains = set s.chains c (record cb { next = head });
    frees = set s.frees i (some c);
    nfree_chain = s.nfree_chain + 1;
  }

  put_lem :
      (s : State m) (i c file line : ℕ) (cb : Chainbuf) (head : Option ℕ)
      → Place s i c cb
      → get_elem? s.frees i ≡ some head
      → put_chainbuf_debug m (some c) file line (some s)
        ≡ put_used m c file line (linked s i c cb head)
  unfolding put_chainbuf_debug put_free
  put_lem s i c file line cb head k h = rw (put_chainbuf_debug, k.at, k.listed, put_free, h)

  Place-linked :
      (s : State m) (i c : ℕ) (cb : Chainbuf) (head : Option ℕ)
      → Place s i c cb
      → Place (linked s i c cb head) i c (record cb { next = head })
  Place-linked s i c cb head k = record {
    at = get_elem?-set_self s.chains c _ (lt-length_of_elem s.chains c k.at);
    listed = k.listed;
  }

  abbrev given : State m → ℕ → ℕ → ℕ → ℕ → Chainbuf → State m
  given s i c file line cb = record s {
    frees = set s.frees i cb.next;
    nfree_chain = decrement s.nfree_chain;
    chains = set s.chains c (fresh cb.size file line (record cb { next = none }));
    using = m.insert s.using c c;
  }

  get_lem :
      (s : State m) (i c file line : ℕ) (cb : Chainbuf)
      → Place s i c cb
      → get_elem? s.frees i ≡ some (some c)
      → get_chainbuf_debug m true true true cb.size file line (some s)
        ≡ ok (some c) (some (given s i c file line cb))
  unfolding get_chainbuf_debug get_started take_from take give
  get_lem s i c file line cb k h =
      rw (get_chainbuf_debug, get_started, k.listed, take_from, h, take, k.at, give)

  Place-given :
      (s : State m) (i c file line : ℕ) (cb : Chainbuf)
      → Place s i c cb
      → Place (given s i c file line cb) i c (fresh cb.size file line (record cb { next = none }))
  Place-given s i c file line cb k = record {
    at = get_elem?-set_self s.chains c _ (lt-length_of_elem s.chains c k.at);
    listed = k.listed;
  }

  abbrev gets : ℕ → ℕ → ℕ → Option (State m) → Run m (Option ℕ × Option ℕ)
  gets size file line s =
      then_ m (get_chainbuf_debug m true true true size file line s)
        λ x s1. then_ m (get_chainbuf_debug m true true true size file line s1) λ y s2. ok (x, y) s2

  -- the buffer `c` put back at one place and at another, then two calls for a size
  abbrev pub puts_gets : ℕ → ℕ → ℕ → ℕ → ℕ → ℕ → Option (State m) → Run m (Option ℕ × Option ℕ)
  puts_gets c size file line file' line' s =
      then_ m (put_chainbuf_debug m (some c) file line s) λ _ s1.
        then_ m (put_chainbuf_debug m (some c) file' line' s1) λ _ s2. gets size file line s2

  -- A buffer that is out and is put back twice: the second call reports it, but the next two calls
  -- for its size return this buffer both.
  pub put_chainbuf_debug_twice :
      (c b file line file' line' : ℕ) (s : State m) (xs : ℕ → List ℕ)
      → Valid m s xs
      → m.find s.using c ≡ some b
      → (cb : Chainbuf) × (s' : State m) × (get_elem? s.chains c ≡ some cb)
        × (puts_gets c cb.size file line file' line' (some s) ≡ ok (some c, some c) (some s'))
        × (s'.log ≡ (file', line') ∷ s.log)
  unfolding put_used
  put_chainbuf_debug_twice c b file line file' line' s xs v u =
      let (cb, i, g, e) = v.known c b u in
      let (head, hd, _) = v.listed cb.size i e in
      let lt = lt-length_of_elem s.frees i hd in
      let k : Place s i c cb = record { at = g; listed = e } in
      let s1 = record (linked s i c cb head) { using = m.delete s.using c } in
      let cb1 : Chainbuf = record cb { next = head } in
      let k1 : Place s1 i c cb1 = record { at = (Place-linked s i c cb head k).at; listed = e } in
      let h1 : get_elem? s1.frees i ≡ some (some c) = get_elem?-set_self s.frees i (some c) lt in
      let gone : m.find s1.using c ≡ none = m.find-delete s.using c c ∙ ground arith in
      let put1 : put_chainbuf_debug m (some c) file line (some s) ≡ ok tt (some s1) =
        put_lem s i c file line cb head k hd ∙ rw (put_used, u) in
      let s2 = record (linked s1 i c cb1 (some c)) { log = (file', line') ∷ s.log } in
      let cb2 : Chainbuf = record cb { next = some c } in
      let k2 : Place s2 i c cb2 = record {
        at = (Place-linked s1 i c cb1 (some c) k1).at;
        listed = e;
      } in
      let h2 : get_elem? s2.frees i ≡ some (some c) =
        get_elem?-set_self s1.frees i (some c) (lt-length_of_elem s1.frees i h1) in
      let put2 : put_chainbuf_debug m (some c) file' line' (some s1) ≡ ok tt (some s2) =
        put_lem s1 i c file' line' cb1 (some c) k1 h1 ∙ rw (put_used, gone) in
      let s3 = given s2 i c file line cb2 in
      let k3 = Place-given s2 i c file line cb2 k2 in
      let h3 : get_elem? s3.frees i ≡ some (some c) =
        get_elem?-set_self s2.frees i (some c) (lt-length_of_elem s2.frees i h2) in
      let cb3 = fresh cb.size file line (record cb2 { next = none }) in
      let get1 = get_lem s2 i c file line cb2 k2 h2 in
      let get2 = get_lem s3 i c file line cb3 k3 h3 in
      (cb, given s3 i c file line cb3, g, rw (puts_gets, put1, put2, gets, get1, get2), refl)
