-- ===== src/Port.antt =====
-- `ngx_request_port` of ngx_toolkit_misc.c. nginx's `ngx_atoi` is a parameter.
use nginx_toolkit_module.Base.{
  refl, ℕ, suc, ◌-◌, ◌%◌, ◌^◌, ◌≤◌, ◌<◌, ◌≡◌, ◌≢◌, ◌↔◌, Bool, true, false, ◌&&◌, ◌||◌, List, [],
  ◌∷◌, arith, ◌==◌, if◌then◌else◌,
}
use nginx_toolkit_module.Int.{ℤ, pos, negsuc, ltb_int}
use nginx_toolkit_module.Text.{Bytes, codes}

-- equal lengths, and `ngx_memcmp` over them
abbrev pub bytes_eq : Bytes → Bytes → Bool
bytes_eq [] [] = true
bytes_eq (x ∷ xs) (y ∷ ys) = x == y && bytes_eq xs ys
bytes_eq _ _ = false

pub bytes_eq-same : (xs : Bytes) → bytes_eq xs xs ≡ true
bytes_eq-same [] = refl
bytes_eq-same (x ∷ xs) = ground (arith, bytes_eq-same xs)

pub same-bytes_eq : (xs ys : Bytes) → bytes_eq xs ys ≡ true → xs ≡ ys
same-bytes_eq [] [] e = refl
same-bytes_eq [] (y ∷ ys) e = absurd cc
same-bytes_eq (x ∷ xs) [] e = absurd cc
same-bytes_eq (x ∷ xs) (y ∷ ys) e =
    let h : x ≡ y = ground (arith, e) in let t = same-bytes_eq xs ys (ground (arith, e)) in cc

-- `ngx_sheme_port`; a port 0 ends the table
abbrev pub scheme_port : List (Bytes × ℕ)
scheme_port = (codes "http", 80) ∷ (codes "https", 443) ∷ (codes "rtmp", 1935) ∷ ([], 0) ∷ []

unfoldable pub default_port : List (Bytes × ℕ) → Bytes → ℕ
default_port [] scheme = 0
default_port ((s, p) ∷ table) scheme =
    let rest = default_port table scheme in
    if p == 0 then 0 else if bytes_eq s scheme then p else rest

-- a value returned as in_port_t keeps its low 16 bits
abbrev in_port : ℤ → ℕ
in_port (pos n) = n % 2 ^ 16
in_port (negsuc n) = (2 ^ 16 - suc n % 2 ^ 16) % 2 ^ 16

module _ (atoi : Bytes → ℤ) where
  given_port : Bytes → ℕ
  given_port port =
      let p = atoi port in if ltb_int p (pos 1) || ltb_int (pos 65535) p then 0 else in_port p

  unfoldable pub request_port : Bytes → Bytes → ℕ
  unfolding given_port default_port
  request_port scheme [] = default_port scheme_port scheme
  request_port scheme (c ∷ port) = given_port (c ∷ port)

  given_port_iff :
      (port : Bytes) (n : ℕ)
      → ((given_port port ≡ n) × (n ≢ 0)) ↔ ((atoi port ≡ pos n) × (0 < n) × (n ≤ 65535))
  unfolding given_port
  given_port_iff port n = (λ h. ground arith, λ h. ground arith)

  -- Where a port is given, ngx_request_port returns a port n other than 0 exactly if the text's
  -- value by ngx_atoi is n and lies in [1, 65535]; the scheme does not matter.
  pub request_port_iff :
      (scheme : Bytes) (c : ℕ) (port : Bytes) (n : ℕ)
      → ((request_port scheme (c ∷ port) ≡ n) × (n ≢ 0))
        ↔ ((atoi (c ∷ port) ≡ pos n) × (0 < n) × (n ≤ 65535))
  unfolding request_port
  request_port_iff scheme c port n = given_port_iff (c ∷ port) n
