-- ===== src/Rbuf/Valid.antt =====
-- The free lists of ngx_rbuf.c, one for each size, and the buffers that are out.
use nginx_toolkit_module.Base.{
  ℕ, ◌≡◌, ◌≢◌, subst, sym, ap, ◌∙◌, inl, inr, true, false, Option, none, some, List, [], ◌==◌,
  arith, if◌then◌else◌, get_elem?, Bool-cases, if_true, if_false,
}
use nginx_toolkit_module.FreeList.{has, Distinct, Chain, Chain-frame}
use nginx_toolkit_module.Map.UintMap.{KeyMap}
use nginx_toolkit_module.Map.Insert.{kept}
use nginx_toolkit_module.Rbuf.{Chainbuf}

abbrev pub next_of : List Chainbuf → ℕ → Option (Option ℕ)
next_of chains a = elim (get_elem? chains a) [ none ↦ none | some cb ↦ some cb.next ]

abbrev pub updated {ℓ} : {A : Type ℓ} → (ℕ → A) → ℕ → A → ℕ → A
updated f k x j = if j == k then x else f j

pub ne_of_lacks : (a c : ℕ) (ys : List ℕ) → has a ys ≡ true → has c ys ≡ false → a ≢ c
ne_of_lacks a c ys h w e = cc (ap (λ z. has z ys) e)

module _ (m : KeyMap ℕ) where
  -- Each size on the map has a list of its own in `frees`, chained through the buffers `xs k`; they
  -- have that size, and none of them is out. A buffer that is out exists, and its size is on the
  -- map.
  pub record IsValid (map : m.Repr) (frees : List (Option ℕ)) (chains : List Chainbuf)
      (using : m.Repr) (xs : ℕ → List ℕ) : Type 0 where
    pub listed :
        (k i : ℕ)
        → m.find map k ≡ some i
        → (p : Option ℕ) × (get_elem? frees i ≡ some p) × Chain (next_of chains) p (xs k)
    pub unlisted : (k : ℕ) → m.find map k ≡ none → xs k ≡ []
    pub distinct : (k : ℕ) → Distinct (xs k)
    pub sized :
        (k a : ℕ)
        → has a (xs k) ≡ true
        → (cb : Chainbuf) × (get_elem? chains a ≡ some cb) × (cb.size ≡ k)
    pub one : (k j i : ℕ) → m.find map k ≡ some i → m.find map j ≡ some i → j ≡ k
    pub free : (k a : ℕ) → has a (xs k) ≡ true → m.find using a ≡ none
    pub known :
        (a b : ℕ)
        → m.find using a ≡ some b
        → (cb : Chainbuf) × (i : ℕ) × (get_elem? chains a ≡ some cb) × (m.find map cb.size ≡ some i)

  pub next_of-same :
      (t t' : List Chainbuf) (a : ℕ) (cb : Chainbuf)
      → get_elem? t a ≡ some cb
      → get_elem? t' a ≡ some cb
      → next_of t' a ≡ next_of t a
  next_of-same t t' a cb e f = rw (next_of, e, f)

  pub find_insert :
      (r : m.Repr) (k n j : ℕ)
      → m.find r k ≡ none
      → m.find (m.insert r k n) j ≡ (if j == k then some n else m.find r j)
  find_insert r k n j e =
      m.find-insert r k n j ∙ ap (λ z. if j == k then kept false n z else m.find r j) e

  -- the list of another size is where it was
  pub other_list :
      (map : m.Repr) (frees frees' : List (Option ℕ)) (chains chains' : List Chainbuf)
      (using : m.Repr) (xs : ℕ → List ℕ) (size i k j : ℕ)
      → IsValid map frees chains using xs
      → m.find map size ≡ some i
      → (k == size) ≡ false
      → m.find map k ≡ some j
      → ((a : ℕ) → i ≢ a → get_elem? frees' a ≡ get_elem? frees a)
      → ((a : ℕ) (cb : Chainbuf)
          → has a (xs k) ≡ true
          → get_elem? chains a ≡ some cb
          → get_elem? chains' a ≡ some cb)
      → (p : Option ℕ) × (get_elem? frees' j ≡ some p) × Chain (next_of chains') p (xs k)
  other_list map frees frees' chains chains' using xs size i k j v e q f fo co =
      let (p, g, c) = v.listed k j f in
      let apart : i ≢ j =
        λ z. let same = v.one k size j f (e ∙ ap some z) in absurd (ground arith) in
      (
        p,
        fo j apart ∙ g,
        Chain-frame (next_of chains) (next_of chains') p (xs k)
            (λ a h.
              let (cb, l, _) = v.sized k a h in next_of-same chains chains' a cb l (co a cb h l))
            c,
      )

  -- a buffer given out: `c` was not free, or was the first of its list
  pub given-IsValid :
      (map : m.Repr) (frees frees' : List (Option ℕ)) (chains chains' : List Chainbuf)
      (using : m.Repr) (xs : ℕ → List ℕ) (size i c : ℕ) (q : Option ℕ) (rest : List ℕ)
      (cb : Chainbuf)
      → IsValid map frees chains using xs
      → m.find map size ≡ some i
      → m.find using c ≡ none
      → get_elem? frees' i ≡ some q
      → ((a : ℕ) → i ≢ a → get_elem? frees' a ≡ get_elem? frees a)
      → get_elem? chains' c ≡ some cb
      → cb.size ≡ size
      → ((a : ℕ) (x : Chainbuf)
          → a ≢ c
          → get_elem? chains a ≡ some x
          → get_elem? chains' a ≡ some x)
      → Chain (next_of chains) q rest
      → Distinct rest
      → has c rest ≡ false
      → ((a : ℕ) → has a rest ≡ true → has a (xs size) ≡ true)
      → ((k : ℕ) → (k == size) ≡ false → has c (xs k) ≡ false)
      → IsValid map frees' chains' (m.insert using c c) (updated xs size rest)
  given-IsValid map frees frees' chains chains' using xs size i c q rest cb v e off fr fo ch sz co
        cq dr out sub other =
      let apart = λ (a k : ℕ). ne_of_lacks a c (xs k) in
      let moved = λ (a : ℕ) (h : has a rest ≡ true). ne_of_lacks a c rest h out in
      let find' = λ (a : ℕ). find_insert using c c a off in
      record {
        listed = λ k j f. elim (Bool-cases (k == size)) [
          | inl w ↦
              let same : k ≡ size = ground arith in
              let at : some i ≡ some j = sym e ∙ ap (m.find map) (sym same) ∙ f in
              let ij : i ≡ j = cc at in
              (
                q,
                ap (get_elem? frees') (sym ij) ∙ fr,
                subst (Chain (next_of chains') q) (sym (if_true rest (xs k) w)) (
                    Chain-frame (next_of chains) (next_of chains') q rest
                      (λ a h.
                        let (x, l, _) = v.sized size a (sub a h) in
                        next_of-same chains chains' a x l (co a x (moved a h) l))
                      cq),
              )
          | inr w ↦
              let (p, g, l) =
                other_list map frees frees' chains chains' using xs size i k j v e w f fo
                  (λ a x h l. co a x (apart a k h (other k w)) l) in
              (p, g, subst (Chain (next_of chains') p) (sym (if_false rest (xs k) w)) l)
        ];
        unlisted = λ k f. elim (Bool-cases (k == size)) [
          | inl w ↦ let same : k ≡ size = ground arith in absurd (cc (ap (m.find map) same))
          | inr w ↦ if_false rest (xs k) w ∙ v.unlisted k f
        ];
        distinct = λ k. elim (Bool-cases (k == size)) [
          | inl w ↦ subst Distinct (sym (if_true rest (xs k) w)) dr
          | inr w ↦ subst Distinct (sym (if_false rest (xs k) w)) (v.distinct k)
        ];
        sized = λ k a h. elim (Bool-cases (k == size)) [
          | inl w ↦
              let h' = ap (has a) (sym (if_true rest (xs k) w)) ∙ h in
              let (x, l, z) = v.sized size a (sub a h') in
              (x, co a x (moved a h') l, z ∙ ground arith)
          | inr w ↦
              let h' = ap (has a) (sym (if_false rest (xs k) w)) ∙ h in
              let (x, l, z) = v.sized k a h' in (x, co a x (apart a k h' (other k w)) l, z)
        ];
        one = v.one;
        free = λ k a h. elim (Bool-cases (k == size)) [
          | inl w ↦
              let h' = ap (has a) (sym (if_true rest (xs k) w)) ∙ h in
              let ne = moved a h' in
              let r : (a == c) ≡ false = ground arith in
              find' a ∙ if_false (some c) (m.find using a) r ∙ v.free size a (sub a h')
          | inr w ↦
              let h' = ap (has a) (sym (if_false rest (xs k) w)) ∙ h in
              let ne = apart a k h' (other k w) in
              let r : (a == c) ≡ false = ground arith in
              find' a ∙ if_false (some c) (m.find using a) r ∙ v.free k a h'
        ];
        known = λ a b f. elim (Bool-cases (a == c)) [
          | inl r ↦
              let same : a ≡ c = ground arith in
              (cb, i, ap (get_elem? chains') same ∙ ch, ap (m.find map) sz ∙ e)
          | inr r ↦
              let old = sym (find' a ∙ if_false (some c) (m.find using a) r) ∙ f in
              let (x, n, l, z) = v.known a b old in
              let ne : a ≢ c = ground arith in (x, n, co a x ne l, z)
        ];
      }
