-- ===== src/HttpDynamic/Servers/Names/Forms.antt =====
-- The arguments of the directive `server_name`: their letters and their wildcards.
use nginx_toolkit_module.Base.{
  ℕ, ◌≡◌, ◌≢◌, ◌≤◌, ◌<◌, ◌+◌, refl, sym, ap, ◌∙◌, subst, ◌⊎◌, inl, inr, Bool, true, false, ◌||◌,
  ◌==◌, [], ◌∷◌, ◌++◌, arith, All, Bool-cases,
}
use nginx_toolkit_module.Text.{Bytes}
use nginx_toolkit_module.HttpDynamic.Location.{byte_at}
use nginx_toolkit_module.HttpDynamic.Servers.Names.{is_upper, lower, has_upper, invalid}

-- a text with its upper-case letters made lower-case
pub data Lowered : Bytes → Bytes → Type 0 where
  no_byte : Lowered [] []
  upper_byte :
      (x : ℕ) {xs ys : Bytes}
      → b'A' ≤ x
      → x ≤ b'Z'
      → Lowered xs ys
      → Lowered (x ∷ xs) ((x + 32) ∷ ys)
  other_byte :
      (x : ℕ) {xs ys : Bytes} → (x < b'A') ⊎ (b'Z' < x) → Lowered xs ys → Lowered (x ∷ xs) (x ∷ ys)

-- whether an expression is compiled without regard to case: where it has an upper-case letter
pub data Caseless : Bytes → Bool → Type 0 where
  caseless :
      (before : Bytes) (x : ℕ) (behind : Bytes)
      → b'A' ≤ x
      → x ≤ b'Z'
      → Caseless (before ++ x ∷ behind) true
  by_case : {xs : Bytes} → All (λ x. (x < b'A') ⊎ (b'Z' < x)) xs → Caseless xs false

-- a name that is no regular expression: a wildcard stands before a dot and more, and a dot at the
-- start before more
pub data NameForm : Bytes → Type 0 where
  no_name : NameForm []
  plain : (c : ℕ) (cs : Bytes) → c ≢ b'*' → c ≢ b'.' → c ≢ b'~' → NameForm (c ∷ cs)
  wildcard : (c : ℕ) (cs : Bytes) → NameForm (b'*' ∷ b'.' ∷ c ∷ cs)
  dotted : (c : ℕ) (cs : Bytes) → NameForm (b'.' ∷ c ∷ cs)

pub lower-Lowered : (xs : Bytes) → Lowered xs (lower xs)
lower-Lowered [] = no_byte
lower-Lowered (x ∷ xs) = elim (Bool-cases (is_upper x)) [
  | inl e ↦ rw e (upper_byte x (ground (arith, e)) (ground (arith, e)) (lower-Lowered xs))
  | inr e ↦ rw e (other_byte x (ground (arith, e)) (lower-Lowered xs))
]

pub Lowered-lower : {xs ys : Bytes} → Lowered xs ys → lower xs ≡ ys
Lowered-lower no_byte = refl
Lowered-lower (upper_byte x {xs} a b r) =
    let up : is_upper x ≡ true = ground (arith, a, b) in
    rw up (ap (λ z. (x + 32) ∷ z) (Lowered-lower r))
Lowered-lower (other_byte x a r) =
    let up : is_upper x ≡ false = ground (arith, a) in rw up (ap (λ z. x ∷ z) (Lowered-lower r))

has_upper-append : (xs ys : Bytes) → has_upper (xs ++ ys) ≡ (has_upper xs || has_upper ys)
has_upper-append [] ys = refl
has_upper-append (x ∷ xs) ys = ground (arith, has_upper-append xs ys)

pub Caseless-has_upper : {xs : Bytes} {b : Bool} → Caseless xs b → has_upper xs ≡ b
Caseless-has_upper (caseless before x behind a b) =
    has_upper-append before (x ∷ behind) ∙ ground (arith, a, b)
Caseless-has_upper (by_case {xs} a) = none_upper xs a
  where
    none_upper : (ys : Bytes) → All (λ x. (x < b'A') ⊎ (b'Z' < x)) ys → has_upper ys ≡ false
    none_upper [] p = refl
    none_upper (y ∷ ys) (py, p) = ground (arith, py, none_upper ys p)

Caseless-cons :
    (x : ℕ) (xs : Bytes) (b : Bool) → is_upper x ≡ false → Caseless xs b → Caseless (x ∷ xs) b
Caseless-cons x _ _ e (caseless before y behind a b) = caseless (x ∷ before) y behind a b
Caseless-cons x _ _ e (by_case a) = by_case (ground (arith, e), a)

pub has_upper-Caseless : (xs : Bytes) → Caseless xs (has_upper xs)
has_upper-Caseless [] = by_case tt
has_upper-Caseless (x ∷ xs) = elim (Bool-cases (is_upper x)) [
  | inl e ↦ rw e (caseless [] x xs (ground (arith, e)) (ground (arith, e)))
  | inr e ↦ rw e (Caseless-cons x xs (has_upper xs) e (has_upper-Caseless xs))
]

star_form : (cs : Bytes) → invalid (b'*' ∷ cs) ≡ false → NameForm (b'*' ∷ cs)
star_form [] h = absurd cc
star_form (d ∷ []) h = absurd cc
star_form (d ∷ e ∷ r) h =
    let dot : b'.' ≡ d = ground (arith, h) in
    subst (λ z. NameForm (b'*' ∷ z ∷ e ∷ r)) dot (wildcard e r)

dot_form : (cs : Bytes) → invalid (b'.' ∷ cs) ≡ false → NameForm (b'.' ∷ cs)
dot_form [] h = absurd cc
dot_form (d ∷ r) h = dotted d r

pub valid_form : (v : Bytes) → invalid v ≡ false → (byte_at v 0 == b'~') ≡ false → NameForm v
valid_form [] h t = no_name
valid_form (c ∷ cs) h t = elim (Bool-cases (c == b'*')) [
  | inl e ↦
      let at : c ≡ b'*' = ground (arith, e) in
      subst (λ z. NameForm (z ∷ cs)) (sym at)
        (star_form cs (subst (λ z. invalid (z ∷ cs) ≡ false) at h))
  | inr e ↦ elim (Bool-cases (c == b'.')) [
    | inl g ↦
        let at : c ≡ b'.' = ground (arith, g) in
        subst (λ z. NameForm (z ∷ cs)) (sym at)
          (dot_form cs (subst (λ z. invalid (z ∷ cs) ≡ false) at h))
    | inr g ↦ plain c cs (ground (arith, e)) (ground (arith, g)) (ground (arith, t))
  ]
]

pub form_valid : {v : Bytes} → NameForm v → (invalid v ≡ false) × ((byte_at v 0 == b'~') ≡ false)
form_valid no_name = (refl, refl)
form_valid (plain c cs a b d) = (ground (arith, a, b), ground (arith, d))
form_valid (wildcard c cs) = (ground arith, refl)
form_valid (dotted c cs) = (ground arith, refl)
