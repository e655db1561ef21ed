-- ===== src/DynamicConf/Token/Room.antt =====
-- The text from `start` on never outgrows what has been read into the buffer.
use nginx_toolkit_module.Base.{
  ℕ, ◌+◌, ◌≤◌, ◌<◌, ◌≡◌, refl, ap, ◌⊎◌, subst, inl, inr, Bool, true, false, List, [], ◌∷◌, ◌++◌,
  arith, length, length-append,
}
use nginx_toolkit_module.Text.{Bytes}
use nginx_toolkit_module.DynamicConf.Token.{
  Rc, Scanner, Next, more, stop, Scan, exhausted, returned, advance, at_space, after_quote, found,
  in_word, step_at, step, scan,
}

abbrev Within : ℕ → Next → Type 0
Within n (more s) = length s.token ≤ n
Within n (stop rc s) = Unit

pub Next-cases :
    (x : Next) → ((s : Scanner) × (x ≡ more s)) ⊎ ((rc : Rc) × (s : Scanner) × (x ≡ stop rc s))
Next-cases (more s) = inl (s, refl)
Next-cases (stop rc s) = inr (rc, s, refl)

at_space-Within :
    (n : ℕ) (s : Scanner) (c : ℕ) → 1 ≤ n → length s.token ≤ n → Within n (at_space s c)
unfolding at_space
at_space-Within n s c h k = ground arith

after_quote-Within :
    (n : ℕ) (s : Scanner) (c : ℕ) → 1 ≤ n → length s.token ≤ n → Within n (after_quote s c)
unfolding after_quote
after_quote-Within n s c h k =
    ground (arith, at_space-Within n (record s { last_space = true; need_space = false }) c)

module _ (memory : List Bytes → Bool) where
  found-Within :
      (n : ℕ) (body : Bytes) (s : Scanner) (c : ℕ)
      → length s.token ≤ n
      → Within n (found memory body s c)
  unfolding found
  found-Within n body s c h = ground arith

  in_word-Within :
      (n : ℕ) (body : Bytes) (s : Scanner) (c : ℕ)
      → length s.token ≤ n
      → Within n (in_word memory body s c)
  unfolding in_word
  in_word-Within n body s c h = ground (
    arith,
    found-Within n body (record s { variable = false; d_quoted = false; need_space = true }) c,
    found-Within n body (record s { variable = false; s_quoted = false; need_space = true }) c,
    found-Within n body (record s { variable = false; last_space = true }) c,
  )

  unfoldable pub resume : Scan → Bytes → Scan
  resume (exhausted s) ys = scan memory s ys
  resume (returned rc s rest) ys = returned rc s (rest ++ ys)

  step-Within : (s : Scanner) (c : ℕ) → Within (length s.token + 1) (step memory s c)
  unfolding step step_at
  step-Within s c =
      let n = length s.token + 1 in
      let a = advance s c in
      let h : length a.token ≤ n = omega (arith, length-append s.token (c ∷ [])) in
      let k : 1 ≤ n = omega arith in
      ground (
        arith,
        after_quote-Within n a c k h,
        at_space-Within n a c k h,
        in_word-Within n s.token a c h,
      )

  -- what an exhausted scan holds was held before or has been read; what a call leaves was there
  pub scan_room :
      (s s' : Scanner) (xs : Bytes)
      → scan memory s xs ≡ exhausted s'
      → length s'.token ≤ length s.token + length xs
  unfolding scan
  scan_room s s' [] h =
      let h' : exhausted s ≡ exhausted s' = h in
      let e : s ≡ s' = cc in omega (arith, ap (λ (z : Scanner). length z.token) e)
  scan_room s s' (c ∷ xs) h = elim (Next-cases (step memory s c)) [
    | inl (t, e) ↦
        let k : scan memory t xs ≡ exhausted s' = rw (scan, e) at h in
        let w : Within (length s.token + 1) (more t) =
          subst (Within (length s.token + 1)) e (step-Within s c) in
        omega (arith, scan_room t s' xs k, w)
    | inr (rc, t, e) ↦ let k : returned rc t xs ≡ exhausted s' = rw (scan, e) at h in absurd (cc)
  ]

  pub scan_rest :
      (s s' : Scanner) (xs rest : Bytes) {rc : Rc}
      → scan memory s xs ≡ returned rc s' rest
      → length rest < length xs
  unfolding scan
  scan_rest s s' [] rest h = absurd (cc)
  scan_rest s s' (c ∷ xs) rest {rc} h = elim (Next-cases (step memory s c)) [
    | inl (t, e) ↦
        let k : scan memory t xs ≡ returned rc s' rest = rw (scan, e) at h in
        omega (arith, scan_rest t s' xs rest k)
    | inr (rc', t, e) ↦
        let k : returned rc' t xs ≡ returned rc s' rest = rw (scan, e) at h in
        let same : xs ≡ rest = cc in omega (arith, ap (λ (z : Bytes). length z) same)
  ]

  -- a scan goes on behind bytes that it has used up, and leaves what stands behind a directive
  pub scan-append :
      (s : Scanner) (xs ys : Bytes) → scan memory s (xs ++ ys) ≡ resume (scan memory s xs) ys
  unfolding scan resume
  scan-append s [] ys = refl
  scan-append s (c ∷ xs) ys =
      elim (step memory s c)
        as (λ z.
          elim z [ more s' ↦ scan memory s' (xs ++ ys) | stop rc s' ↦ returned rc s' (xs ++ ys) ]
          ≡ resume (elim z [ more s' ↦ scan memory s' xs | stop rc s' ↦ returned rc s' xs ]) ys) [
            | more s' ↦ scan-append s' xs ys
            | stop rc s' ↦ refl
          ]

  pub scan-nil : (s : Scanner) → scan memory s [] ≡ exhausted s
  unfolding scan
  scan-nil s = refl
