-- ===== src/Text/Scan.antt =====
-- Searches that keep the laws, for concrete runs.
use nginx_toolkit_module.Base.{
  ℕ, ◌≡◌, refl, true, false, Option, none, some, [], ◌∷◌, ◌++◌, arith, ◌==◌, if◌then◌else◌,
}
use nginx_toolkit_module.Text.{Bytes, has, starts_with, occurs, clear, Searches}

abbrev behind : ℕ → Option (Bytes × Bytes) → Option (Bytes × Bytes)
behind x none = none
behind x (some (p, r)) = some (x ∷ p, r)

unfoldable pub scan : Bytes → ℕ → Option (Bytes × Bytes)
scan [] c = none
scan (x ∷ xs) c = if x == c then some ([], x ∷ xs) else behind x (scan xs c)

unfoldable pub scan_text : Bytes → Bytes → Option (Bytes × Bytes)
scan_text [] needle = if starts_with needle [] then some ([], []) else none
scan_text (x ∷ xs) needle =
    if starts_with needle (x ∷ xs) then some ([], x ∷ xs) else behind x (scan_text xs needle)

pub scan_found : (p r : Bytes) (c : ℕ) → has c p ≡ false → scan (p ++ (c ∷ r)) c ≡ some (p, c ∷ r)
unfolding scan
scan_found [] r c h = ground arith
scan_found (x ∷ p) r c h = ground (arith, scan_found p r c)

pub scan_absent : (xs : Bytes) (c : ℕ) → has c xs ≡ false → scan xs c ≡ none
unfolding scan
scan_absent [] c h = refl
scan_absent (x ∷ xs) c h = ground (arith, scan_absent xs c)

starts_with_self : (needle r : Bytes) → starts_with needle (needle ++ r) ≡ true
starts_with_self [] r = refl
starts_with_self (c ∷ cs) r = ground (arith, starts_with_self cs r)

scan_text_head :
    (needle xs : Bytes) → starts_with needle xs ≡ true → scan_text xs needle ≡ some ([], xs)
unfolding scan_text
scan_text_head needle [] h = rw h
scan_text_head needle (x ∷ xs) h = rw h

pub scan_text_found :
    (p r needle : Bytes)
    → has 0 (p ++ (needle ++ r)) ≡ false
    → clear needle p (needle ++ r) ≡ true
    → scan_text (p ++ (needle ++ r)) needle ≡ some (p, needle ++ r)
unfolding scan_text
scan_text_found [] r needle z h = scan_text_head needle (needle ++ r) (starts_with_self needle r)
scan_text_found (x ∷ p) r needle z h = ground (arith, scan_text_found p r needle)

pub scan_text_absent :
    (xs needle : Bytes) → has 0 xs ≡ false → occurs needle xs ≡ false → scan_text xs needle ≡ none
unfolding scan_text
scan_text_absent [] needle z h = rw h
scan_text_absent (x ∷ xs) needle z h = ground (arith, scan_text_absent xs needle)

unfoldable pub scans : Searches
unfolding scan scan_text
scans = record {
  strlchr = scan;
  strnstr = scan_text;
  strlchr_found = scan_found;
  strlchr_absent = scan_absent;
  strnstr_found = scan_text_found;
  strnstr_absent = scan_text_absent;
}
