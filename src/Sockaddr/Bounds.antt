-- ===== src/Sockaddr/Bounds.antt =====
-- What `ngx_sock_pton` returns.
use nginx_toolkit_module.Base.{
  ℕ, ◌≤◌, refl, Option, none, some, Option-cases, drop, sym, ap, ◌∙◌, leb, ◌%◌, ◌^◌, Bool-cases,
  ◌≡◌, ◌≢◌, ◌⊎◌, inl, inr, Bool, true, false, ◌∷◌, [], ◌++◌, arith, if◌then◌else◌,
}
use nginx_toolkit_module.Text.{Bytes, codes, has}
use nginx_toolkit_module.Url.{is_empty}
use nginx_toolkit_module.Int.{ℤ, pos, negsuc}
use nginx_toolkit_module.Sockaddr.{
  port_ok, port_value, first_is, inet_parts, Family, unspecified, inet, inet6, unix, Sockaddr,
  sockaddr_un_size, sockaddr_in6_size, sockaddr_in_size, Addresses, set_port, sock_pton_unix,
  sock_pton_inet6, sock_pton_inet, sock_pton,
}

-- the size of the structure of a family
abbrev pub socklen : Family → ℕ
socklen unspecified = 0
socklen inet = sockaddr_in_size
socklen inet6 = sockaddr_in6_size
socklen unix = sockaddr_un_size

-- a success: the length is that of the family set, and the port is as it was or the value of some
-- text, in range
abbrev pub IsAddress : Addresses → Sockaddr → ℕ × Sockaddr → Type 0
IsAddress a sa r =
    (r.0 ≡ socklen r.1.family)
    × ((r.1.port ≡ sa.port) ⊎ ((t : Bytes) × (a.atoi t ≡ pos r.1.port) × (r.1.port ≤ 65535)))

-- a failure, or a success
abbrev Returns : Addresses → Sockaddr → ℕ × Sockaddr → Type 0
Returns a sa r = (r.0 ≡ 0) ⊎ IsAddress a sa r

if-Returns :
    (a : Addresses) (sa : Sockaddr) (b : Bool) (x y : ℕ × Sockaddr)
    → Returns a sa x
    → Returns a sa y
    → Returns a sa (if b then x else y)
if-Returns a sa true x y p q = p
if-Returns a sa false x y p q = q

module _ (a : Addresses) where
  set_port-Returns :
      (size : ℕ) (sa sa' : Sockaddr) (text : Bytes)
      → size ≡ socklen sa'.family
      → Returns a sa (set_port a size sa' text)
  unfolding set_port
  set_port-Returns size sa sa' text e = by_value (a.atoi text) refl
    where
      by_value :
          (p : ℤ)
          → a.atoi text ≡ p
          → Returns a sa
              (if port_ok p then (size, record sa' { port = port_value p }) else (0, sa'))
      by_value (negsuc n) g = inl refl
      by_value (pos n) g = elim (Bool-cases (leb n 65535)) [
        | inl b ↦
            let small : n % 2 ^ 16 ≡ n = ground (arith, b) in
            rw b (inr (e, inr (text, g ∙ ap pos (sym small), omega arith)))
        | inr b ↦ rw b (inl refl)
      ]

  sock_pton_unix-Returns : (sa : Sockaddr) (text : Bytes) → Returns a sa (sock_pton_unix a sa text)
  unfolding sock_pton_unix
  sock_pton_unix-Returns sa text = ground arith

  sock_pton_inet6-Returns :
      (sa : Sockaddr) (text : Bytes) → Returns a sa (sock_pton_inet6 a sa text)
  unfolding sock_pton_inet6
  sock_pton_inet6-Returns sa text = elim (Option-cases (a.strlchr text b']')) [
    | inl e ↦ rw (sock_pton_inet6, e) (inl refl)
    | inr ((before, at), e) ↦ elim (Bool-cases (is_empty (drop 1 at))) [
      | inl g ↦ rw (sock_pton_inet6, e, g) (inl refl)
      | inr g ↦ elim (Option-cases (a.inet6_addr (drop 1 before))) [
        | inl k ↦ rw (sock_pton_inet6, e, g, k) (inl refl)
        | inr (addr, k) ↦
            let sa' : Sockaddr = record sa { family = inet6; addr = addr } in
            elim (Bool-cases (first_is b':' (drop 1 at))) [
              | inl c ↦
                  rw (sock_pton_inet6, e, g, k, c)
                    (set_port-Returns sockaddr_in6_size sa sa' (drop 1 (drop 1 at)) refl)
              | inr c ↦ rw (sock_pton_inet6, e, g, k, c) (inr (refl, inl refl))
            ]
      ]
    ]
  ]

  inet_parts-Returns :
      (sa : Sockaddr) (host : Bytes) (port : Option Bytes)
      → Returns a sa (inet_parts a sa host port)
  unfolding inet_parts
  inet_parts-Returns sa host port = elim (Option-cases (a.inet_addr host)) [
    | inl e ↦ rw (inet_parts, e) (inl refl)
    | inr (addr, e) ↦
        let sa' : Sockaddr = record sa { family = inet; addr = addr } in
        elim (Option-cases port) [
          | inl g ↦ rw (inet_parts, e, g) (inr (refl, inl refl))
          | inr (p, g) ↦ rw (inet_parts, e, g) (set_port-Returns sockaddr_in_size sa sa' p refl)
        ]
  ]

  sock_pton_inet-Returns : (sa : Sockaddr) (text : Bytes) → Returns a sa (sock_pton_inet a sa text)
  unfolding sock_pton_inet
  sock_pton_inet-Returns sa text = elim (Option-cases (a.strlchr text b':')) [
    | inl e ↦ rw (sock_pton_inet, e) (inet_parts-Returns sa text none)
    | inr ((before, at), e) ↦
        rw (sock_pton_inet, e) (inet_parts-Returns sa before (some (drop 1 at)))
  ]

  -- Where ngx_sock_pton returns a length other than 0, it is the size of the structure of the
  -- family that it has set, and the port is the one that the structure had, or the value by
  -- ngx_atoi of some text, a value of at most 65535.
  pub sock_pton-IsAddress :
      (sa : Sockaddr) (text : Bytes)
      → (sock_pton a sa text).0 ≢ 0
      → IsAddress a sa (sock_pton a sa text)
  unfolding sock_pton
  sock_pton-IsAddress sa text h = elim outcome [ inl e ↦ absurd (h e) | inr r ↦ r ]
    where
      outcome : Returns a sa (sock_pton a sa text)
      outcome =
          if-Returns a sa _ _ _ (sock_pton_unix-Returns sa text) (
            if-Returns a sa _ _ _ (sock_pton_inet6-Returns sa text)
              (sock_pton_inet-Returns sa text))

  -- An IPv6 address in brackets with nothing behind the closing bracket is refused, whatever
  -- address it is, and the structure is left as it was.
  pub sock_pton_bracketed :
      (sa : Sockaddr) (host : Bytes)
      → has b']' host ≡ false
      → sock_pton a sa (b'[' ∷ (host ++ (b']' ∷ []))) ≡ (0, sa)
  unfolding sock_pton
  sock_pton_bracketed sa host h = ground (
    arith,
    a.strncasecmp_first (host ++ (b']' ∷ [])) (codes "nix:") 4,
    a.strlchr_found (b'[' ∷ host) [] b']' h,
  )
