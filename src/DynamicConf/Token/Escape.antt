-- ===== src/DynamicConf/Token/Escape.antt =====
-- Text with a backslash before each quote and backslash, and the copy that removes them.
use nginx_toolkit_module.Base.{
  ℕ, ◌≡◌, refl, ap, ◌∙◌, inl, inr, Bool, true, false, ◌||◌, [], ◌∷◌, arith, ◌==◌, if◌then◌else◌,
  Bool-cases, if_true, if_false,
}
use nginx_toolkit_module.Text.{Bytes}
use nginx_toolkit_module.DynamicConf.Token.{unescape, is_escapable}

abbrev pub escape : Bytes → Bytes
escape [] = []
escape (c ∷ cs) = if c == b'"' || c == b'\\' then b'\\' ∷ (c ∷ escape cs) else c ∷ escape cs

abbrev pub is_special : ℕ → Bool
is_special c = c == b'"' || c == b'\\'

pub escape_special :
    (c : ℕ) (cs : Bytes) → is_special c ≡ true → escape (c ∷ cs) ≡ b'\\' ∷ (c ∷ escape cs)
escape_special c cs h = if_true _ _ h

pub escape_plain : (c : ℕ) (cs : Bytes) → is_special c ≡ false → escape (c ∷ cs) ≡ c ∷ escape cs
escape_plain c cs h = if_false (b'\\' ∷ (c ∷ escape cs)) _ h

unescape_plain :
    (c : ℕ) (xs : Bytes) (ch : ℕ) → (c == b'\\') ≡ false → unescape (c ∷ xs) ch ≡ c ∷ unescape xs ch
unfolding unescape
unescape_plain c [] ch h = ground arith
unescape_plain c (d ∷ xs) ch h = ground arith

unescape_pair :
    (d : ℕ) (xs : Bytes) (ch : ℕ)
    → is_escapable d ≡ true
    → unescape (b'\\' ∷ (d ∷ xs)) ch ≡ d ∷ unescape xs ch
unfolding unescape
unescape_pair d xs ch h = ground arith

-- Copying undoes the escapes.
pub unescape-escape : (w : Bytes) → unescape (escape w) b'"' ≡ w
unfolding unescape
unescape-escape [] = refl
unescape-escape (c ∷ w) = elim (Bool-cases (is_special c)) [
  | inl h ↦
      ap (λ z. unescape z b'"') (escape_special c w h)
      ∙ unescape_pair c (escape w) b'"' (ground arith)
      ∙ ap (λ z. c ∷ z) (unescape-escape w)
  | inr h ↦
      ap (λ z. unescape z b'"') (escape_plain c w h)
      ∙ unescape_plain c (escape w) b'"' (ground arith)
      ∙ ap (λ z. c ∷ z) (unescape-escape w)
]
