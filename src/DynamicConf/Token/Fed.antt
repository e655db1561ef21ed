-- ===== src/DynamicConf/Token/Fed.antt =====
-- A directive has a word.
use nginx_toolkit_module.Base.{
  ℕ, ◌≡◌, refl, sym, ap, ◌∙◌, subst, inl, inr, Bool, true, false, not, ◌||◌, List, [], ◌∷◌, ◌++◌,
  arith,
}
use nginx_toolkit_module.Text.{Bytes}
use nginx_toolkit_module.DynamicConf.Token.{
  Rc, ok, block_start, Scanner, Next, more, stop, returned, none_yet, advance, at_space,
  after_quote, found, in_word, unescape, step_at, step, scan,
}
use nginx_toolkit_module.DynamicConf.Token.Room.{Next-cases}

-- the results with which a directive is carried out
abbrev pub runs : Rc → Bool
runs ok = true
runs block_start = true
runs _ = false

-- behind a quote there is a word
abbrev pub Fed : Scanner → Type 0
Fed s = (not s.need_space || not (none_yet s.args)) ≡ true

abbrev Feeds : Next → Type 0
Feeds (more s) = Fed s
Feeds (stop rc s) = (not (runs rc) || not (none_yet s.args)) ≡ true

none_yet-append : (args : List Bytes) (w : Bytes) → none_yet (args ++ (w ∷ [])) ≡ false
none_yet-append [] w = refl
none_yet-append (x ∷ args) w = refl

at_space-Feeds : (s : Scanner) (c : ℕ) → s.need_space ≡ false → Feeds (at_space s c)
unfolding at_space
at_space-Feeds s c h = ground arith

after_quote-Feeds : (s : Scanner) (c : ℕ) → s.need_space ≡ true → Fed s → Feeds (after_quote s c)
unfolding after_quote
after_quote-Feeds s c h k =
    ground (arith, at_space-Feeds (record s { last_space = true; need_space = false }) c)

module _ (memory : List Bytes → Bool) where
  found-Feeds : (body : Bytes) (s : Scanner) (c : ℕ) → Feeds (found memory body s c)
  unfolding found
  found-Feeds body s c = ground (arith, none_yet-append s.args (unescape body c))

  in_word-Feeds :
      (body : Bytes) (s : Scanner) (c : ℕ) → s.need_space ≡ false → Feeds (in_word memory body s c)
  unfolding in_word
  in_word-Feeds body s c h = ground (
    arith,
    found-Feeds body (record s { variable = false; d_quoted = false; need_space = true }) c,
    found-Feeds body (record s { variable = false; s_quoted = false; need_space = true }) c,
    found-Feeds body (record s { variable = false; last_space = true }) c,
  )

  step-Feeds : (s : Scanner) (c : ℕ) → Fed s → Feeds (step memory s c)
  unfolding step step_at
  step-Feeds s c h = ground (
    arith,
    after_quote-Feeds (advance s c) c,
    at_space-Feeds (advance s c) c,
    in_word-Feeds s.token (advance s c) c,
  )

  pub scan-Fed :
      (s s' : Scanner) (xs rest : Bytes) (rc : Rc)
      → Fed s
      → scan memory s xs ≡ returned rc s' rest
      → runs rc ≡ true
      → none_yet s'.args ≡ false
  unfolding scan
  scan-Fed s s' [] rest rc f h r = absurd (cc)
  scan-Fed s s' (c ∷ xs) rest rc f h r = elim (Next-cases (step memory s c)) [
    | inl (t, e) ↦
        let k : scan memory t xs ≡ returned rc s' rest = rw (scan, e) at h in
        scan-Fed t s' xs rest rc (subst Feeds e (step-Feeds s c f)) k r
    | inr (rc', t, e) ↦
        let k : returned rc' t xs ≡ returned rc s' rest = rw (scan, e) at h in
        let w : Feeds (stop rc' t) = subst Feeds e (step-Feeds s c f) in
        let a : rc' ≡ rc = cc in
        let b : t ≡ s' = cc in
        let g : runs rc' ≡ true = ap runs a ∙ r in
        let n : none_yet t.args ≡ false = ground arith in
        ap (λ (z : Scanner). none_yet z.args) (sym b) ∙ n
  ]
