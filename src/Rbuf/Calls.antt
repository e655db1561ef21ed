-- ===== src/Rbuf/Calls.antt =====
-- The buffers that are out and the free ones, through the calls of ngx_rbuf.c.
use nginx_toolkit_module.Base.{
  ℕ, ◌+◌, ◌≡◌, refl, subst, sym, ap, ◌∙◌, inl, inr, Bool, true, Option, none, some, List, [], ◌∷◌,
  ◌++◌, ◌==◌, arith, if◌then◌else◌, get_elem?, set, length, Option-cases,
}
use nginx_toolkit_module.FreeList.{Chain}
use nginx_toolkit_module.Map.UintMap.{KeyMap}
use nginx_toolkit_module.Rbuf.{
  Chainbuf, State, ok, take, take_from, get_started, get_chainbuf_debug, put_used, put_free,
  put_chainbuf_debug,
}
use nginx_toolkit_module.Rbuf.Valid.{next_of, updated, find_insert}
use nginx_toolkit_module.Rbuf.Back.{back-IsValid, new_size-IsValid}
use nginx_toolkit_module.Rbuf.Gives.{Valid, Gives, new-Gives, again-Gives}

module _ (m : KeyMap ℕ) where
  take-Gives :
      (file line i : ℕ) (s : State m) (xs : ℕ → List ℕ) (size : ℕ) (p : Option ℕ) (l : List ℕ)
      → Valid m s xs
      → m.find s.map size ≡ some i
      → get_elem? s.frees i ≡ some p
      → xs size ≡ l
      → Chain (next_of s.chains) p l
      → Gives m s size (take m true size file line i s p)
  take-Gives file line i s xs size p [] v e g eq ch =
      subst (λ z. Gives m s size (take m true size file line i s z)) (sym ch)
        (new-Gives m file line i s xs size v e (g ∙ ap some ch))
  take-Gives file line i s xs size p (c ∷ rest) v e g eq (pe, (q, lk, ch)) =
      subst (λ z. Gives m s size (take m true size file line i s z)) (sym pe)
        (again-Gives m true file line i s xs size c rest q v e (g ∙ ap some pe) eq lk ch)

  take_from-Gives :
      (file line i : ℕ) (s : State m) (xs : ℕ → List ℕ) (size : ℕ)
      → Valid m s xs
      → m.find s.map size ≡ some i
      → Gives m s size (take_from m true size file line s i)
  unfolding take_from
  take_from-Gives file line i s xs size v e =
      let (p, g, l) = v.listed size i e in
      subst (Gives m s size) (sym (rw (take_from, g)))
        (take-Gives file line i s xs size p (xs size) v e g refl l)

  pub get_chainbuf_debug-Gives :
      (made : Bool) (size file line : ℕ) (s : State m) (xs : ℕ → List ℕ)
      → Valid m s xs
      → Gives m s size (get_chainbuf_debug m made true true size file line (some s))
  unfolding get_chainbuf_debug get_started
  get_chainbuf_debug-Gives made size file line s xs v = elim (Option-cases (m.find s.map size)) [
    | inr (i, e) ↦
        subst (Gives m s size) (sym (rw (get_started, e)))
          (take_from-Gives file line i s xs size v e)
    | inl e ↦
        let n = length s.frees in
        let s1 : State m = record s {
          map = m.insert s.map size n;
          frees = s.frees ++ (none ∷ []);
          nalloc_node = s.nalloc_node + 1;
        } in
        let v1 : Valid m s1 xs = new_size-IsValid m s.map s.frees s.chains s.using xs size v e in
        let f : m.find s1.map size ≡ some n = find_insert m s.map size n size e ∙ ground arith in
        let k = take_from-Gives file line n s1 xs size v1 f in
        subst (Gives m s size) (sym (rw (get_started, e))) (record {
          chain = k.chain;
          state = k.state;
          free = k.free;
          content = k.content;
          ends = k.ends;
          valid = k.valid;
          was_in = k.was_in;
          out = k.out;
          at = k.at;
          sized = k.sized;
          whole = k.whole;
          alone = k.alone;
          others = k.others;
        })
  ]

  -- the lists before the first call
  pub init-IsValid :
      Valid m
        (record {
          map = m.init;
          frees = [];
          chains = [];
          nalloc_node = 0;
          nalloc_chain = 0;
          nfree_chain = 0;
          using = m.init;
          log = [];
        })
        (λ k. [])
  init-IsValid = record {
    listed = λ k i f. absurd (cc (m.find-init k));
    unlisted = λ k f. refl;
    distinct = λ k. tt;
    sized = λ k a h. absurd (cc);
    one = λ k j i f g. absurd (cc (m.find-init k));
    free = λ k a h. m.find-init a;
    known = λ a b f. absurd (cc (m.find-init a));
  }

  -- Putting a buffer that is out back makes it the first free one of its size, and it is out no
  -- more; the buffers of other sizes, and what else is out, stay, and the lists are valid.
  pub put_chainbuf_debug-IsValid :
      (c b file line : ℕ) (s : State m) (xs : ℕ → List ℕ)
      → Valid m s xs
      → m.find s.using c ≡ some b
      → (cb : Chainbuf) × (s' : State m) × (get_elem? s.chains c ≡ some cb)
        × (put_chainbuf_debug m (some c) file line (some s) ≡ ok tt (some s'))
        × Valid m s' (updated xs cb.size (c ∷ xs cb.size))
        × ((a : ℕ) → m.find s'.using a ≡ (if a == c then none else m.find s.using a))
  unfolding put_chainbuf_debug put_free put_used
  put_chainbuf_debug-IsValid c b file line s xs v u =
      let (cb, i, g, e) = v.known c b u in
      let (head, hd, _) = v.listed cb.size i e in
      (
        cb,
        record s {
          frees = set s.frees i (some c);
          chains = set s.chains c (record cb { next = head });
          nfree_chain = s.nfree_chain + 1;
          using = m.delete s.using c;
        },
        g,
        rw (put_chainbuf_debug, g, e, put_free, hd, put_used, u),
        back-IsValid m s.map s.frees s.chains s.using xs i c b head cb v u g e hd,
        m.find-delete s.using c,
      )
