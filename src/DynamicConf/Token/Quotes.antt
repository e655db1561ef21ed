-- ===== src/DynamicConf/Token/Quotes.antt =====
-- The scanner inside double quotes.
use nginx_toolkit_module.Base.{
  ℕ, ◌≡◌, refl, sym, ap, ◌∙◌, subst, inl, inr, Bool, true, false, ◌&&◌, List, [], ◌∷◌, ◌++◌,
  append-nil, append_assoc, arith, ◌==◌, Bool-cases, if_false,
}
use nginx_toolkit_module.Text.{Bytes}
use nginx_toolkit_module.DynamicConf.Token.{Scanner, more, in_word, step_at, step, scan, advance}
use nginx_toolkit_module.DynamicConf.Token.Escape.{escape, is_special, escape_special, escape_plain}

-- inside double quotes
pub record InQuotes (s : Scanner) (args : List Bytes) (token : Bytes) : Type 0 where
  pub comment_off : s.sharp_comment ≡ false
  pub quoted_off : s.quoted ≡ false
  pub space_off : s.need_space ≡ false
  pub last_off : s.last_space ≡ false
  pub quotes_on : s.d_quoted ≡ true
  pub single_off : s.s_quoted ≡ false
  pub words : s.args ≡ args
  pub text : s.token ≡ token

module _ (memory : List Bytes → Bool) where
  pub scan_more :
      (s s' : Scanner) (c : ℕ) (cs : Bytes)
      → step memory s c ≡ more s'
      → scan memory s (c ∷ cs) ≡ scan memory s' cs
  unfolding scan
  scan_more s s' c cs h = rw (scan, h)

  -- inside quotes a byte other than a quote or a backslash only touches `variable`
  in_word_plain :
      (body : Bytes) (s : Scanner) (c : ℕ)
      → s.d_quoted ≡ true
      → is_special c ≡ false
      → (v : Bool) × (in_word memory body s c ≡ more (record s { variable = v }))
  unfolding in_word
  in_word_plain body s c q h = elim (Bool-cases (c == b'{' && s.variable)) [
    | inl a ↦ (s.variable, ground arith)
    | inr a ↦ elim (Bool-cases (c == b'$')) [
      | inl b ↦ (true, ground arith)
      | inr b ↦ (false, ground arith)
    ]
  ]

  pub step-in_word :
      (s : Scanner) (args : List Bytes) (token : Bytes) (c : ℕ)
      → InQuotes s args token
      → step memory s c ≡ in_word memory s.token (advance s c) c
  unfolding step step_at
  step-in_word s args token c q =
      let off : (advance s c).sharp_comment ≡ false = ground arith in
      if_false _ _ off
      ∙ if_false _ _ q.quoted_off
      ∙ if_false _ _ q.space_off
      ∙ if_false _ _ q.last_off

  InQuotes-advance :
      (s : Scanner) (args : List Bytes) (token : Bytes) (c : ℕ) (v : Bool)
      → InQuotes s args token
      → InQuotes (record (advance s c) { variable = v }) args (token ++ (c ∷ []))
  InQuotes-advance s args token c v q = record {
    comment_off = ground arith;
    quoted_off = q.quoted_off;
    space_off = q.space_off;
    last_off = q.last_off;
    quotes_on = q.quotes_on;
    single_off = q.single_off;
    words = q.words;
    text = ap (λ z. z ++ (c ∷ [])) q.text;
  }

  InQuotes-step :
      (s : Scanner) (args : List Bytes) (token : Bytes) (c : ℕ)
      → InQuotes s args token
      → is_special c ≡ false
      → (s' : Scanner) × (step memory s c ≡ more s') × InQuotes s' args (token ++ (c ∷ []))
  InQuotes-step s args token c q h =
      let (v, e) = in_word_plain s.token (advance s c) c q.quotes_on h in
      (
        record (advance s c) { variable = v },
        step-in_word s args token c q ∙ e,
        InQuotes-advance s args token c v q,
      )

  in_word_backslash :
      (body : Bytes) (s : Scanner)
      → in_word memory body s b'\\' ≡ more (record s { variable = false; quoted = true })
  unfolding in_word
  in_word_backslash body s = refl

  step_quoted :
      (s : Scanner) (c : ℕ)
      → s.sharp_comment ≡ false
      → step memory (record s { quoted = true }) c ≡ more (record (advance s c) { quoted = false })
  unfolding step step_at
  step_quoted s c h =
      let off : (advance s c).sharp_comment ≡ false = ground arith in if_false _ _ off

  InQuotes-step_pair :
      (s : Scanner) (args : List Bytes) (token : Bytes) (c : ℕ)
      → InQuotes s args token
      → (s1 s2 : Scanner) × (step memory s b'\\' ≡ more s1)
        × (step memory s1 c ≡ more s2)
        × InQuotes s2 args (token ++ (b'\\' ∷ (c ∷ [])))
  InQuotes-step_pair s args token c q =
      let s1 : Scanner = record (advance s b'\\') { variable = false } in
      let q1 = InQuotes-advance s args token b'\\' false q in
      let q2 = InQuotes-advance s1 args (token ++ (b'\\' ∷ [])) c false q1 in
      (
        record s1 { quoted = true },
        record (advance s1 c) { quoted = false },
        step-in_word s args token b'\\' q ∙ in_word_backslash s.token (advance s b'\\'),
        step_quoted s1 c q1.comment_off,
        record {
          comment_off = q2.comment_off;
          quoted_off = refl;
          space_off = q2.space_off;
          last_off = q2.last_off;
          quotes_on = q2.quotes_on;
          single_off = q2.single_off;
          words = q2.words;
          text = q2.text ∙ append_assoc token (b'\\' ∷ []) (c ∷ []);
        },
      )

  -- the text of a word in quotes
  pub scan-escape :
      (s : Scanner) (args : List Bytes) (token w rest : Bytes)
      → InQuotes s args token
      → (s' : Scanner) × (scan memory s (escape w ++ rest) ≡ scan memory s' rest)
        × InQuotes s' args (token ++ escape w)
  scan-escape s args token [] rest q =
      (s, refl, subst (λ z. InQuotes s args z) (sym (append-nil token)) q)
  scan-escape s args token (c ∷ w) rest q = elim (Bool-cases (is_special c)) [
    | inl h ↦
        let (s1, s2, e1, e2, q2) = InQuotes-step_pair s args token c q in
        let (s3, e3, q3) = scan-escape s2 args (token ++ (b'\\' ∷ (c ∷ []))) w rest q2 in
        rw (escape_special c w h) (
          s3,
          scan_more s s1 b'\\' (c ∷ (escape w ++ rest)) e1
              ∙ scan_more s1 s2 c (escape w ++ rest) e2
              ∙ e3,
          subst (λ z. InQuotes s3 args z) (append_assoc token (b'\\' ∷ (c ∷ [])) (escape w)) q3,
        )
    | inr h ↦
        let (s1, e1, q1) = InQuotes-step s args token c q h in
        let (s3, e3, q3) = scan-escape s1 args (token ++ (c ∷ [])) w rest q1 in
        rw (escape_plain c w h) (
          s3,
          scan_more s s1 c (escape w ++ rest) e1 ∙ e3,
          subst (λ z. InQuotes s3 args z) (append_assoc token (c ∷ []) (escape w)) q3,
        )
  ]
