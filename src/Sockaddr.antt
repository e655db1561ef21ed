-- ===== src/Sockaddr.antt =====
-- `ngx_sock_pton` of ngx_toolkit_misc.c, on a platform with IPv6 and UNIX domain sockets.
-- A call returns the socklen and the structure, which keeps what is not written.
pub mod Bounds
use nginx_toolkit_module.Base.{
  ℕ, ◌+◌, ◌%◌, ◌^◌, ◌≡◌, Bool, true, false, ◌||◌, ◌&&◌, Option, none, some, List, [], ◌∷◌, drop,
  leb, ltb, ◌==◌, length, if◌then◌else◌,
}
use nginx_toolkit_module.Int.{ℤ, pos, negsuc, ltb_int}
use nginx_toolkit_module.Text.{Bytes, codes, Searches}
use nginx_toolkit_module.Url.{is_empty}

pub data Family : Type 0 where
  unspecified inet inet6 unix : Family

-- the members of the socket address structures
pub record Sockaddr : Type 0 where
  pub family : Family
  pub addr : Bytes
  pub port : ℕ
  pub path : Bytes

-- sizes on Linux: sun_path, and the three structures
abbrev pub sun_path_size : ℕ
sun_path_size = 108

abbrev pub sockaddr_un_size : ℕ
sockaddr_un_size = 110

abbrev pub sockaddr_in6_size : ℕ
sockaddr_in6_size = 28

abbrev pub sockaddr_in_size : ℕ
sockaddr_in_size = 16

-- nginx's address parsers: `none` is INADDR_NONE or a result other than NGX_OK. `strncasecmp` is
-- whether ngx_strncasecmp returns 0.
pub record Addresses : Type 0 where
  pub searches : Searches
  pub open searches use *
  pub atoi : Bytes → ℤ
  pub inet_addr : Bytes → Option Bytes
  pub inet6_addr : Bytes → Option Bytes
  pub cpystrn : Bytes → ℕ → Bytes
  pub strncasecmp : Bytes → Bytes → ℕ → Bool
  pub strncasecmp_first :
      (xs ys : Bytes) (n : ℕ) → strncasecmp (b'[' ∷ xs) (b'u' ∷ ys) (n + 1) ≡ false

abbrev pub first_is : ℕ → Bytes → Bool
first_is c [] = false
first_is c (x ∷ _) = x == c

abbrev pub port_ok : ℤ → Bool
port_ok (pos n) = leb n 65535
port_ok (negsuc n) = false

abbrev pub port_value : ℤ → ℕ
port_value (pos n) = n % 2 ^ 16
port_value (negsuc n) = 0

module _ (a : Addresses) where
  -- `port < 0 || port > 65535` returns 0; `sa` has its address by then
  pub set_port : ℕ → Sockaddr → Bytes → ℕ × Sockaddr
  set_port size sa text =
      let port = a.atoi text in
      if port_ok port then (size, record sa { port = port_value port }) else (0, sa)

  pub sock_pton_unix : Sockaddr → Bytes → ℕ × Sockaddr
  sock_pton_unix sa text =
      let path = drop 5 text in
      if is_empty path
      then (0, sa)
      else if ltb sun_path_size (length path + 1)
      then (0, sa)
      else (sockaddr_un_size, record sa { family = unix; path = a.cpystrn path (length path + 1) })

  pub sock_pton_inet6 : Sockaddr → Bytes → ℕ × Sockaddr
  unfolding set_port
  sock_pton_inet6 sa text = elim (a.strlchr text b']') [
    | none ↦ (0, sa)
    | some (before, at) ↦
        let rest = drop 1 at in
        if is_empty rest then (0, sa) else elim (a.inet6_addr (drop 1 before)) [
          | none ↦ (0, sa)
          | some addr ↦
              let sa' = record sa { family = inet6; addr = addr } in
              if first_is b':' rest
              then set_port sockaddr_in6_size sa' (drop 1 rest)
              else (sockaddr_in6_size, sa')
        ]
  ]

  -- the two halves of `sock_pton_inet`: the text of the address, and that of the port if any
  pub inet_parts : Sockaddr → Bytes → Option Bytes → ℕ × Sockaddr
  unfolding set_port
  inet_parts sa host port = elim (a.inet_addr host) [
    | none ↦ (0, sa)
    | some addr ↦
        let sa' = record sa { family = inet; addr = addr } in
        elim port [ none ↦ (sockaddr_in_size, sa') | some p ↦ set_port sockaddr_in_size sa' p ]
  ]

  pub sock_pton_inet : Sockaddr → Bytes → ℕ × Sockaddr
  unfolding inet_parts
  sock_pton_inet sa text = elim (a.strlchr text b':') [
    | none ↦ inet_parts sa text none
    | some (before, at) ↦ inet_parts sa before (some (drop 1 at))
  ]

  unfoldable pub sock_pton : Sockaddr → Bytes → ℕ × Sockaddr
  unfolding sock_pton_unix sock_pton_inet6 sock_pton_inet
  sock_pton sa text =
      if leb 5 (length text) && a.strncasecmp text (codes "unix:") 5
      then sock_pton_unix sa text
      else if first_is b'[' text
      then sock_pton_inet6 sa text
      else sock_pton_inet sa text
