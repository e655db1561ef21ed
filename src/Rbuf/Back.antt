-- ===== src/Rbuf/Back.antt =====
-- A buffer that is out put back, and a size that is new.
use nginx_toolkit_module.Base.{
  ℕ, ◌≡◌, ◌≢◌, refl, subst, sym, ap, ◌∙◌, inl, inr, true, false, Option, none, some, List, [], ◌∷◌,
  ◌++◌, ◌==◌, arith, get_elem?, set, length, Bool-cases, if_true, if_false, get_elem?-set_self,
  get_elem?-set_ne,
}
use nginx_toolkit_module.FreeList.{has, Distinct, Chain, Chain-frame}
use nginx_toolkit_module.Map.UintMap.{KeyMap}
use nginx_toolkit_module.NodePool.Free.{
  lt-length_of_elem, get_elem?-append_left, get_elem?-append_last,
}
use nginx_toolkit_module.Rbuf.{Chainbuf}
use nginx_toolkit_module.Rbuf.Valid.{
  next_of, updated, IsValid, next_of-same, find_insert, other_list, ne_of_lacks,
}

module _ (m : KeyMap ℕ) where
  -- a buffer that is out is not free
  out_lacks :
      (map : m.Repr) (frees : List (Option ℕ)) (chains : List Chainbuf) (using : m.Repr)
      (xs : ℕ → List ℕ) (c b k : ℕ)
      → IsValid m map frees chains using xs
      → m.find using c ≡ some b
      → has c (xs k) ≡ false
  out_lacks map frees chains using xs c b k v u = elim (Bool-cases (has c (xs k))) [
    | inl h ↦ absurd (cc (v.free k c h))
    | inr h ↦ h
  ]

  pub back-IsValid :
      (map : m.Repr) (frees : List (Option ℕ)) (chains : List Chainbuf) (using : m.Repr)
      (xs : ℕ → List ℕ) (i c b : ℕ) (head : Option ℕ) (cb : Chainbuf)
      → IsValid m map frees chains using xs
      → m.find using c ≡ some b
      → get_elem? chains c ≡ some cb
      → m.find map cb.size ≡ some i
      → get_elem? frees i ≡ some head
      → IsValid m map
          (set frees i (some c))
          (set chains c (record cb { next = head }))
          (m.delete using c)
          (updated xs cb.size (c ∷ xs cb.size))
  back-IsValid map frees chains using xs i c b head cb v u g e hd =
      let size = cb.size in
      let cb' : Chainbuf = record cb { next = head } in
      let chains' = set chains c cb' in
      let lack = λ (k : ℕ). out_lacks map frees chains using xs c b k v u in
      let apart = λ (a k : ℕ) (h : has a (xs k) ≡ true). ne_of_lacks a c (xs k) h (lack k) in
      let keep = λ (a : ℕ) (x : Chainbuf) (n : a ≢ c) (l : get_elem? chains a ≡ some x).
        get_elem?-set_ne chains c a cb' (λ z. n (sym z)) ∙ l in
      let mine : get_elem? chains' c ≡ some cb' =
        get_elem?-set_self chains c cb' (lt-length_of_elem chains c g) in
      let longer = c ∷ xs size in
      let find' = λ (a : ℕ). m.find-delete using c a in
      record {
        listed = λ k j f. elim (Bool-cases (k == size)) [
          | inl w ↦
              let same : k ≡ size = ground arith in
              let at : some i ≡ some j = sym e ∙ ap (m.find map) (sym same) ∙ f in
              let ij : i ≡ j = cc at in
              let (p, g', l) = v.listed size i e in
              let ph : some p ≡ some head = sym g' ∙ hd in
              let ph' : p ≡ head = cc ph in
              (
                some c,
                ap (get_elem? (set frees i (some c))) (sym ij)
                    ∙ get_elem?-set_self frees i (some c) (lt-length_of_elem frees i hd),
                subst (Chain (next_of chains') (some c)) (sym (if_true longer (xs k) w)) (
                  refl,
                  (
                    head,
                    rw (next_of, mine),
                    Chain-frame (next_of chains) (next_of chains') head (xs size)
                        (λ a h.
                          let (x, l', _) = v.sized size a h in
                          next_of-same m chains chains' a x l' (keep a x (apart a size h) l'))
                        (subst (λ z. Chain (next_of chains) z (xs size)) ph' l),
                  ),
                ),
              )
          | inr w ↦
              let (p, g', l) =
                other_list m map frees (set frees i (some c)) chains chains' using xs size i k j v e
                  w f (λ a n. get_elem?-set_ne frees i a (some c) n)
                  (λ a x h l. keep a x (apart a k h) l) in
              (p, g', subst (Chain (next_of chains') p) (sym (if_false longer (xs k) w)) l)
        ];
        unlisted = λ k f. elim (Bool-cases (k == size)) [
          | inl w ↦ let same : k ≡ size = ground arith in absurd (cc (ap (m.find map) same))
          | inr w ↦ if_false longer (xs k) w ∙ v.unlisted k f
        ];
        distinct = λ k. elim (Bool-cases (k == size)) [
          | inl w ↦ subst Distinct (sym (if_true longer (xs k) w)) (lack size, v.distinct size)
          | inr w ↦ subst Distinct (sym (if_false longer (xs k) w)) (v.distinct k)
        ];
        sized = λ k a h. elim (Bool-cases (k == size)) [
          | inl w ↦
              let h' = ap (has a) (sym (if_true longer (xs k) w)) ∙ h in
              let same : k ≡ size = ground arith in
              elim (Bool-cases (c == a)) [
                | inl r ↦
                    let ca : a ≡ c = ground arith in
                    (cb', ap (get_elem? chains') ca ∙ mine, sym same)
                | inr r ↦
                    let h2 : has a (xs size) ≡ true = ground arith in
                    let (x, l, z) = v.sized size a h2 in
                    (x, keep a x (apart a size h2) l, z ∙ sym same)
              ]
          | inr w ↦
              let h' = ap (has a) (sym (if_false longer (xs k) w)) ∙ h in
              let (x, l, z) = v.sized k a h' in (x, keep a x (apart a k h') l, z)
        ];
        one = v.one;
        free = λ k a h. elim (Bool-cases (a == c)) [
          | inl r ↦ find' a ∙ if_true none (m.find using a) r
          | inr r ↦ find' a ∙ if_false none (m.find using a) r ∙ elim (Bool-cases (k == size)) [
            | inl w ↦
                let h' = ap (has a) (sym (if_true longer (xs k) w)) ∙ h in
                let h2 : has a (xs size) ≡ true = ground arith in v.free size a h2
            | inr w ↦ v.free k a (ap (has a) (sym (if_false longer (xs k) w)) ∙ h)
          ]
        ];
        known = λ a b' f. elim (Bool-cases (a == c)) [
          | inl r ↦ absurd (cc (find' a ∙ if_true none (m.find using a) r))
          | inr r ↦
              let old = sym (find' a ∙ if_false none (m.find using a) r) ∙ f in
              let (x, n, l, z) = v.known a b' old in
              let ne : a ≢ c = ground arith in (x, n, keep a x ne l, z)
        ];
      }

  -- an empty list for a size that is not on the map
  pub new_size-IsValid :
      (map : m.Repr) (frees : List (Option ℕ)) (chains : List Chainbuf) (using : m.Repr)
      (xs : ℕ → List ℕ) (size : ℕ)
      → IsValid m map frees chains using xs
      → m.find map size ≡ none
      → IsValid m (m.insert map size (length frees)) (frees ++ (none ∷ [])) chains using xs
  new_size-IsValid map frees chains using xs size v new =
      let n = length frees in
      let find' = λ (k : ℕ). find_insert m map size n k new in
      let below = λ (k j : ℕ) (f : m.find map k ≡ some j).
        let (p, g, _) = v.listed k j f in lt-length_of_elem frees j g in
      record {
        listed = λ k i f. elim (Bool-cases (k == size)) [
          | inl w ↦
              let same : k ≡ size = ground arith in
              let at : some n ≡ some i = sym (find' k ∙ if_true (some n) (m.find map k) w) ∙ f in
              let ni : n ≡ i = cc at in
              (
                none,
                ap (get_elem? (frees ++ (none ∷ []))) (sym ni) ∙ get_elem?-append_last frees none,
                subst (Chain (next_of chains) none)
                    (sym (v.unlisted k (ap (m.find map) same ∙ new))) refl,
              )
          | inr w ↦
              let old = sym (find' k ∙ if_false (some n) (m.find map k) w) ∙ f in
              let (p, g, l) = v.listed k i old in
              (p, get_elem?-append_left frees (none ∷ []) i (below k i old) ∙ g, l)
        ];
        unlisted = λ k f. elim (Bool-cases (k == size)) [
          | inl w ↦ absurd (cc (find' k ∙ if_true (some n) (m.find map k) w))
          | inr w ↦ v.unlisted k (sym (find' k ∙ if_false (some n) (m.find map k) w) ∙ f)
        ];
        distinct = v.distinct;
        sized = v.sized;
        one = λ k j i f g. elim (Bool-cases (k == size)) [
          | inl w ↦ elim (Bool-cases (j == size)) [
            | inl r ↦ ground arith
            | inr r ↦
                let at : some n ≡ some i = sym (find' k ∙ if_true (some n) (m.find map k) w) ∙ f in
                let ni : n ≡ i = cc at in
                let lt = below j i (sym (find' j ∙ if_false (some n) (m.find map j) r) ∙ g) in
                absurd (omega (arith, ni, lt))
          ]
          | inr w ↦ elim (Bool-cases (j == size)) [
            | inl r ↦
                let at : some n ≡ some i = sym (find' j ∙ if_true (some n) (m.find map j) r) ∙ g in
                let ni : n ≡ i = cc at in
                let lt = below k i (sym (find' k ∙ if_false (some n) (m.find map k) w) ∙ f) in
                absurd (omega (arith, ni, lt))
            | inr r ↦
                v.one k j i (sym (find' k ∙ if_false (some n) (m.find map k) w) ∙ f)
                  (sym (find' j ∙ if_false (some n) (m.find map j) r) ∙ g)
          ]
        ];
        free = v.free;
        known = λ a b f.
            let (x, i, l, z) = v.known a b f in
            let apart : x.size ≢ size = λ same. cc (ap (m.find map) same) in
            let r : (x.size == size) ≡ false = ground arith in
            (x, i, l, find' x.size ∙ if_false (some n) (m.find map x.size) r ∙ z);
      }
