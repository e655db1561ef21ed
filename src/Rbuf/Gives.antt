-- ===== src/Rbuf/Gives.antt =====
-- A buffer given out, new or the first of a free list.
use nginx_toolkit_module.Base.{
  ℕ, ◌+◌, ◌≡◌, ◌≢◌, refl, subst, sym, ap, ◌∙◌, inl, inr, Bool, true, Option, none, some, List, [],
  ◌∷◌, ◌++◌, ◌==◌, arith, if◌then◌else◌, get_elem?, set, length, Bool-cases, Option-cases,
  get_elem?-set_self, get_elem?-set_ne, length-append,
}
use nginx_toolkit_module.FreeList.{has, Distinct, Chain}
use nginx_toolkit_module.Map.UintMap.{KeyMap}
use nginx_toolkit_module.NodePool.{decrement}
use nginx_toolkit_module.NodePool.Free.{lt-length_of_elem, get_elem?-append_left}
use nginx_toolkit_module.Rbuf.{Chainbuf, State, Run, ok, fresh, new_chainbuf, give, take}
use nginx_toolkit_module.Rbuf.Valid.{next_of, updated, IsValid, find_insert, given-IsValid}

module _ (m : KeyMap ℕ) where
  abbrev pub Valid : State m → (ℕ → List ℕ) → Type 0
  Valid s xs = IsValid m s.map s.frees s.chains s.using xs

  -- The call returns a buffer that was not out, empty and of the whole size, with no next; it is
  -- out now with those that were, which did not change, and the lists are valid.
  pub record Gives (s : State m) (size : ℕ) (r : Run m (Option ℕ)) : Type 0 where
    pub chain : ℕ
    pub state : State m
    pub free : ℕ → List ℕ
    pub content : Chainbuf
    pub ends : r ≡ ok (some chain) (some state)
    pub valid : Valid state free
    pub was_in : m.find s.using chain ≡ none
    pub out : (a : ℕ) → m.find state.using a ≡ (if a == chain then some chain else m.find s.using a)
    pub at : get_elem? state.chains chain ≡ some content
    pub sized : content.size ≡ size
    pub whole : content.buf ≡ record { pos = 0; last = 0; start = 0; end_ = size; memory = true }
    pub alone : content.next ≡ none
    pub others :
        (a : ℕ) (x : Chainbuf)
        → a ≢ chain
        → get_elem? s.chains a ≡ some x
        → get_elem? state.chains a ≡ some x

  -- a new buffer
  pub new-Gives :
      (file line i : ℕ) (s : State m) (xs : ℕ → List ℕ) (size : ℕ)
      → Valid s xs
      → m.find s.map size ≡ some i
      → get_elem? s.frees i ≡ some none
      → Gives s size (take m true size file line i s none)
  unfolding take give
  new-Gives file line i s xs size v e g =
      let n = length s.chains in
      let cb = fresh size file line (new_chainbuf size) in
      let longer = s.chains ++ (new_chainbuf size ∷ []) in
      let chains' = set longer n cb in
      let size_ : length longer ≡ n + 1 = length-append s.chains (new_chainbuf size ∷ []) in
      let here : get_elem? chains' n ≡ some cb =
        get_elem?-set_self longer n cb (omega (arith, size_)) in
      let there = λ (a : ℕ) (x : Chainbuf) (ne : a ≢ n) (l : get_elem? s.chains a ≡ some x).
        get_elem?-set_ne longer n a cb (λ z. ne (sym z))
        ∙ get_elem?-append_left s.chains (new_chainbuf size ∷ []) a (lt-length_of_elem s.chains a l)
        ∙ l in
      let off : m.find s.using n ≡ none = elim (Option-cases (m.find s.using n)) [
        | inl w ↦ w
        | inr (b, w) ↦
            let (x, _, l, _) = v.known n b w in
            absurd (omega (arith, lt-length_of_elem s.chains n l))
      ] in
      record {
        chain = n;
        state = record s {
          chains = chains';
          using = m.insert s.using n n;
          nalloc_chain = s.nalloc_chain + 1;
        };
        free = updated xs size [];
        content = cb;
        ends = refl;
        valid =
            given-IsValid m s.map s.frees s.frees s.chains chains' s.using xs size i n none [] cb v
              e off g (λ a ne. refl) here refl there refl tt refl (λ a h. absurd (cc))
              λ k w. elim (Bool-cases (has n (xs k))) [
                | inl h ↦
                    let (x, l, _) = v.sized k n h in
                    absurd (omega (arith, lt-length_of_elem s.chains n l))
                | inr h ↦ h
              ];
        was_in = off;
        out = λ a. find_insert m s.using n n a off;
        at = here;
        sized = refl;
        whole = refl;
        alone = refl;
        others = there;
      }

  -- the first buffer of a list
  pub again-Gives :
      (memory : Bool) (file line i : ℕ) (s : State m) (xs : ℕ → List ℕ) (size c : ℕ) (rest : List ℕ)
      (q : Option ℕ)
      → Valid s xs
      → m.find s.map size ≡ some i
      → get_elem? s.frees i ≡ some (some c)
      → xs size ≡ c ∷ rest
      → next_of s.chains c ≡ some q
      → Chain (next_of s.chains) q rest
      → Gives s size (take m memory size file line i s (some c))
  unfolding take give
  again-Gives memory file line i s xs size c rest q v e g eq l ch =
      let first : has c (xs size) ≡ true = ap (has c) eq ∙ ground arith in
      let (cb, at, sz) = v.sized size c first in
      let nq : some cb.next ≡ some q = sym (rw (next_of, at)) ∙ l in
      let nq' : q ≡ cb.next = cc nq in
      let cb' = fresh size file line (record cb { next = none }) in
      let chains' = set s.chains c cb' in
      let frees' = set s.frees i cb.next in
      let dist = subst Distinct eq (v.distinct size) in
      let here = get_elem?-set_self s.chains c cb' (lt-length_of_elem s.chains c at) in
      let there = λ (a : ℕ) (x : Chainbuf) (ne : a ≢ c) (l : get_elem? s.chains a ≡ some x).
        get_elem?-set_ne s.chains c a cb' (λ z. ne (sym z)) ∙ l in
      let off = v.free size c first in
      record {
        chain = c;
        state = record s {
          frees = frees';
          chains = chains';
          using = m.insert s.using c c;
          nfree_chain = decrement s.nfree_chain;
        };
        free = updated xs size rest;
        content = cb';
        ends = rw (take, at);
        valid =
            given-IsValid m s.map s.frees frees' s.chains chains' s.using xs size i c cb.next rest
              cb' v e off (get_elem?-set_self s.frees i cb.next (lt-length_of_elem s.frees i g))
              (λ a ne. get_elem?-set_ne s.frees i a cb.next ne) here sz there
              (subst (λ z. Chain (next_of s.chains) z rest) nq' ch) dist.1 dist.0
              (λ a h. ap (has a) eq ∙ ground arith)
              λ k w. elim (Bool-cases (has c (xs k))) [
                | inl h ↦
                    let (x, l', z) = v.sized k c h in
                    let same : some cb ≡ some x = sym at ∙ l' in
                    let cx : cb ≡ x = cc same in
                    let ks : size ≡ k = sym sz ∙ ap (λ y. y.size) cx ∙ z in absurd (ground arith)
                | inr h ↦ h
              ];
        was_in = off;
        out = λ a. find_insert m s.using c c a off;
        at = here;
        sized = sz;
        whole = refl;
        alone = refl;
        others = there;
      }
