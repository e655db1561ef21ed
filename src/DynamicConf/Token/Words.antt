-- ===== src/DynamicConf/Token/Words.antt =====
-- Directives whose words stand in double quotes.
use nginx_toolkit_module.Base.{
  ℕ, ◌≡◌, refl, sym, ap, ◌∙◌, subst, Bool, true, false, List, [], ◌∷◌, ◌++◌, append-nil,
  append_assoc, arith, if_true, if_false,
}
use nginx_toolkit_module.Text.{Bytes}
use nginx_toolkit_module.DynamicConf.Token.{
  Scanner, more, unescape, found, in_word, step_at, step, scan, after_quote, at_space, advance,
}
use nginx_toolkit_module.DynamicConf.Token.Escape.{escape, unescape-escape}
use nginx_toolkit_module.DynamicConf.Token.Quotes.{InQuotes, scan_more, scan-escape, step-in_word}

-- the words of a directive, each in quotes and with a blank behind it
abbrev pub words_text : List Bytes → Bytes
words_text [] = []
words_text (w ∷ ws) = b'"' ∷ (escape w ++ (b'"' ∷ (b' ' ∷ words_text ws)))

-- outside any word, behind a blank; and behind a closing quote
pub record AtSpace (s : Scanner) (args : List Bytes) : Type 0 where
  pub comment_off : s.sharp_comment ≡ false
  pub quoted_off : s.quoted ≡ false
  pub space_off : s.need_space ≡ false
  pub last_on : s.last_space ≡ true
  pub single_off : s.s_quoted ≡ false
  pub words : s.args ≡ args

record BehindQuote (s : Scanner) (args : List Bytes) : Type 0 where
  comment_off : s.sharp_comment ≡ false
  quoted_off : s.quoted ≡ false
  space_on : s.need_space ≡ true
  single_off : s.s_quoted ≡ false
  words : s.args ≡ args

module _ (memory : List Bytes → Bool) where
  step-at_space :
      (s : Scanner) (args : List Bytes) (c : ℕ)
      → AtSpace s args
      → step memory s c ≡ at_space (advance s c) c
  unfolding step step_at
  step-at_space s args c q =
      let off : (advance s c).sharp_comment ≡ false = ground arith in
      if_false _ _ off
      ∙ if_false _ _ q.quoted_off
      ∙ if_false _ _ q.space_off
      ∙ if_true _ _ q.last_on

  open_quote :
      (s : Scanner) (args : List Bytes)
      → AtSpace s args
      → (s' : Scanner) × (step memory s b'"' ≡ more s') × InQuotes s' args []
  unfolding at_space
  open_quote s args q = (
    record (advance s b'"') {
      token = [];
      start_line = s.line;
      d_quoted = true;
      last_space = false;
    },
    step-at_space s args b'"' q,
    record {
      comment_off = q.comment_off;
      quoted_off = q.quoted_off;
      space_off = q.space_off;
      last_off = refl;
      quotes_on = refl;
      single_off = q.single_off;
      words = q.words;
      text = refl;
    },
  )

  close_quote :
      (s : Scanner) (args : List Bytes) (token : Bytes)
      → InQuotes s args token
      → memory args ≡ true
      → (s' : Scanner) × (step memory s b'"' ≡ more s')
        × BehindQuote s' (args ++ (unescape token b'"' ∷ []))
  unfolding in_word found
  close_quote s args token q m = (
    record (advance s b'"') {
      variable = false;
      d_quoted = false;
      need_space = true;
      args = s.args ++ (unescape s.token b'"' ∷ []);
    },
    step-in_word memory s args token b'"' q
        ∙ if_true _ _ q.quotes_on
        ∙ if_true _ _ (ap memory q.words ∙ m),
    record {
      comment_off = q.comment_off;
      quoted_off = q.quoted_off;
      space_on = refl;
      single_off = q.single_off;
      words = rw (q.words, q.text);
    },
  )

  blank_behind :
      (s : Scanner) (args : List Bytes)
      → BehindQuote s args
      → (s' : Scanner) × (step memory s b' ' ≡ more s') × AtSpace s' args
  unfolding step step_at after_quote
  blank_behind s args q = (
    record (advance s b' ') { last_space = true; need_space = false },
    if_false _ _ q.comment_off ∙ if_false _ _ q.quoted_off ∙ if_true _ _ q.space_on,
    record {
      comment_off = q.comment_off;
      quoted_off = q.quoted_off;
      space_off = refl;
      last_on = refl;
      single_off = q.single_off;
      words = q.words;
    },
  )

  module _ (enough : (args : List Bytes) → memory args ≡ true) where
    scan_word :
        (s : Scanner) (args : List Bytes) (w rest : Bytes)
        → AtSpace s args
        → (s' : Scanner) × (scan memory s (b'"' ∷ (escape w ++ (b'"' ∷ (b' ' ∷ rest))))
            ≡ scan memory s' rest)
          × AtSpace s' (args ++ (w ∷ []))
    scan_word s args w rest q =
        let (s1, e1, q1) = open_quote s args q in
        let (s2, e2, q2) = scan-escape memory s1 args [] w (b'"' ∷ (b' ' ∷ rest)) q1 in
        let (s3, e3, q3) = close_quote s2 args (escape w) q2 (enough args) in
        let (s4, e4, q4) = blank_behind s3 (args ++ (unescape (escape w) b'"' ∷ [])) q3 in
        (
          s4,
          scan_more memory s s1 b'"' (escape w ++ (b'"' ∷ (b' ' ∷ rest))) e1
              ∙ e2
              ∙ scan_more memory s2 s3 b'"' (b' ' ∷ rest) e3
              ∙ scan_more memory s3 s4 b' ' rest e4,
          subst (λ z. AtSpace s4 (args ++ (z ∷ []))) (unescape-escape w) q4,
        )

    pub scan-words_text :
        (s : Scanner) (args ws : List Bytes) (rest : Bytes)
        → AtSpace s args
        → (s' : Scanner) × (scan memory s (words_text ws ++ rest) ≡ scan memory s' rest)
          × AtSpace s' (args ++ ws)
    scan-words_text s args [] rest q = (s, refl, subst (λ z. AtSpace s z) (sym (append-nil args)) q)
    scan-words_text s args (w ∷ ws) rest q =
        let (s1, e1, q1) = scan_word s args w (words_text ws ++ rest) q in
        let (s2, e2, q2) = scan-words_text s1 (args ++ (w ∷ [])) ws rest q1 in
        let text : words_text (w ∷ ws) ++ rest
            ≡ b'"' ∷ (escape w ++ (b'"' ∷ (b' ' ∷ (words_text ws ++ rest)))) =
          ap (λ z. b'"' ∷ z) (append_assoc (escape w) (b'"' ∷ (b' ' ∷ words_text ws)) rest) in
        (
          s2,
          ap (scan memory s) text ∙ e1 ∙ e2,
          subst (λ z. AtSpace s2 z) (append_assoc args (w ∷ []) ws) q2,
        )
