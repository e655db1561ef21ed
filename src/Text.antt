-- ===== src/Text.antt =====
-- Byte strings, and the functions of nginx's core that the modules call on them, as parameters.
pub mod Scan
use Prim.Native.Char.{code}
use Prim.Native.String.{String}
use nginx_toolkit_module.Base.{
  ℕ, ◌+◌, ◌≡◌, refl, sym, ap, ◌∙◌, ◌⊎◌, inl, inr, Bool, true, false, not, ◌&&◌, ◌||◌, Option, none,
  some, List, [], ◌∷◌, ◌++◌, Bool-cases, arith, ◌==◌,
}

abbrev pub Bytes : Type 0
Bytes = List ℕ

-- code points; every literal of the development is ASCII
abbrev pub codes : String → Bytes
codes String.[] = []
codes (String.◌∷◌ c s) = code c ∷ codes s

abbrev pub has : ℕ → Bytes → Bool
has c [] = false
has c (x ∷ xs) = x == c || has c xs

abbrev pub starts_with : Bytes → Bytes → Bool
starts_with [] xs = true
starts_with (c ∷ cs) [] = false
starts_with (c ∷ cs) (x ∷ xs) = x == c && starts_with cs xs

abbrev pub occurs : Bytes → Bytes → Bool
occurs needle [] = starts_with needle []
occurs needle (x ∷ xs) = starts_with needle (x ∷ xs) || occurs needle xs

-- no occurrence of the needle in `p ++ rest` begins within `p`
abbrev pub clear : Bytes → Bytes → Bytes → Bool
clear needle [] rest = true
clear needle (x ∷ p) rest = not (starts_with needle (x ∷ (p ++ rest))) && clear needle p rest

-- The searches return the text before the place found and the text from there on. `ngx_strnstr`
-- stops at a NUL byte, so its laws are about texts without one.
pub record Searches : Type 0 where
  pub strlchr : Bytes → ℕ → Option (Bytes × Bytes)
  pub strnstr : Bytes → Bytes → Option (Bytes × Bytes)
  pub strlchr_found :
      (p r : Bytes) (c : ℕ) → has c p ≡ false → strlchr (p ++ (c ∷ r)) c ≡ some (p, c ∷ r)
  pub strlchr_absent : (xs : Bytes) (c : ℕ) → has c xs ≡ false → strlchr xs c ≡ none
  pub strnstr_found :
      (p r needle : Bytes)
      → has 0 (p ++ (needle ++ r)) ≡ false
      → clear needle p (needle ++ r) ≡ true
      → strnstr (p ++ (needle ++ r)) needle ≡ some (p, needle ++ r)
  pub strnstr_absent :
      (xs needle : Bytes) → has 0 xs ≡ false → occurs needle xs ≡ false → strnstr xs needle ≡ none

pub has-append : (c : ℕ) (xs ys : Bytes) → has c (xs ++ ys) ≡ (has c xs || has c ys)
has-append c [] ys = refl
has-append c (x ∷ xs) ys = ground (arith, has-append c xs ys)

-- a text is cut at the first place of a byte, if there is one
pub cut :
    (c : ℕ) (xs : Bytes)
    → (has c xs ≡ false) ⊎ ((p : Bytes) × (r : Bytes) × (xs ≡ p ++ (c ∷ r)) × (has c p ≡ false))
cut c [] = inl refl
cut c (x ∷ xs) = elim (Bool-cases (x == c)) [
  | inl e ↦ inr ([], xs, ground arith, refl)
  | inr e ↦ elim (cut c xs) [
    | inl a ↦ inl (rw e a)
    | inr (p, r, q, a) ↦ inr (x ∷ p, r, rw q, rw e a)
  ]
]

starts_with-append :
    (needle xs : Bytes) → starts_with needle xs ≡ true → (r : Bytes) × (xs ≡ needle ++ r)
starts_with-append [] xs h = (xs, refl)
starts_with-append (c ∷ cs) [] h = absurd (cc)
starts_with-append (c ∷ cs) (x ∷ xs) h =
    let (r, e) = starts_with-append cs xs (ground arith) in (r, ground (arith, e))

-- a text is cut at the first occurrence of another, if there is one
pub cut_text :
    (needle xs : Bytes)
    → (occurs needle xs ≡ false)
      ⊎ ((p : Bytes) × (r : Bytes) × (xs ≡ p ++ (needle ++ r))
          × (clear needle p (needle ++ r) ≡ true))
cut_text needle [] = elim (Bool-cases (starts_with needle [])) [
  | inl e ↦ let (r, q) = starts_with-append needle [] e in inr ([], r, q, refl)
  | inr e ↦ inl e
]
cut_text needle (x ∷ xs) = elim (Bool-cases (starts_with needle (x ∷ xs))) [
  | inl e ↦ let (r, q) = starts_with-append needle (x ∷ xs) e in inr ([], r, q, refl)
  | inr e ↦ elim (cut_text needle xs) [
    | inl a ↦ inl (rw e a)
    | inr (p, r, q, a) ↦ inr (x ∷ p, r, rw q, rw (← q, e) a)
  ]
]
