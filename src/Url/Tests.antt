-- ===== src/Url/Tests.antt =====
-- Urls, ports and socket addresses on concrete texts.
use nginx_toolkit_module.Base.{
  ℕ, suc, ◌+◌, ◌-◌, ◌*◌, ◌≡◌, ◌≢◌, refl, Bool, true, false, ◌&&◌, some, [], ◌∷◌, arith, ltb, ◌==◌,
  if◌then◌else◌, take,
}
use nginx_toolkit_module.Int.{ℤ, pos, negsuc}
use nginx_toolkit_module.Text.{Bytes, codes}
use nginx_toolkit_module.Text.Scan.{scans}
use nginx_toolkit_module.Url.{RequestUrl, ok, error, parse_request_url}
use nginx_toolkit_module.Url.Grammar.{Parts, user, port, fragment, IsUrl, set_parts, url_text}
use nginx_toolkit_module.Url.RoundTrip.{parse_request_url-url_text}
use nginx_toolkit_module.Url.Accepts.{parse_request_url-ok}
use nginx_toolkit_module.Port.{request_port}
use nginx_toolkit_module.Sockaddr.{Addresses, Sockaddr, unspecified, sock_pton}
use nginx_toolkit_module.Sockaddr.Bounds.{IsAddress, sock_pton-IsAddress, sock_pton_bracketed}

abbrev blank : RequestUrl
blank = record {
  scheme = [];
  user = [];
  host = [];
  port = [];
  path = [];
  args = [];
  fragment = [];
  host_with_port = [];
  uri_with_args = [];
}

-- http://me@h.com:80/a/b?x=1#f
abbrev parts : Parts
parts = record {
  scheme = codes "http";
  authority = user (codes "me") (port (codes "h.com") (codes "80"));
  tail = some (fragment (codes "a/b") (codes "x=1") (codes "f"));
}

parse-parts : parse_request_url scans blank (codes "http://me@h.com:80/a/b?x=1#f") ≡ (
  ok,
  record {
    scheme = codes "http";
    user = codes "me";
    host = codes "h.com";
    port = codes "80";
    path = codes "a/b";
    args = codes "x=1";
    fragment = codes "f";
    host_with_port = codes "h.com:80";
    uri_with_args = codes "a/b?x=1#f";
  },
)
unfolding parse_request_url scans
parse-parts = refl

errors :
    ((parse_request_url scans blank (codes "http:/h/")).0 ≡ error)
    × ((parse_request_url scans blank (codes "http://@h/")).0 ≡ error)
    × ((parse_request_url scans blank (codes "http://h:/")).0 ≡ error)
    × ((parse_request_url scans blank (codes "http://h/p?")).0 ≡ error)
    × ((parse_request_url scans blank (codes "http://h/p?a#")).0 ≡ error)
unfolding parse_request_url scans
errors = (refl, refl, refl, refl, refl)

parts-IsUrl : IsUrl parts
parts-IsUrl = record {
  scheme = refl;
  slash = refl;
  authority = (refl, refl, refl, (refl, refl));
  tail = (refl, refl, refl);
  nonempty = refl;
}

parse_request_url-url_text_example :
    parse_request_url scans blank (url_text parts) ≡ (ok, set_parts blank parts)
parse_request_url-url_text_example = parse_request_url-url_text scans blank parts parts-IsUrl refl

parse_ok : (parse_request_url scans blank (codes "rtmp://h/live")).0 ≡ ok
unfolding parse_request_url scans
parse_ok = refl

parse_request_url-ok_example : (p : Parts) × IsUrl p × (codes "rtmp://h/live" ≡ url_text p)
parse_request_url-ok_example =
    parse_request_url-ok scans blank (codes "rtmp://h/live") refl parse_ok

is_digit : ℕ → Bool
is_digit c = ltb 47 c && ltb c 58

digits_value : ℕ → Bytes → ℤ
digits_value acc [] = pos acc
digits_value acc (c ∷ cs) = if is_digit c then digits_value (acc * 10 + (c - 48)) cs else negsuc 0

-- decimal numbers; -1 for anything else
atoi : Bytes → ℤ
atoi [] = negsuc 0
atoi (c ∷ cs) = digits_value 0 (c ∷ cs)

ports :
    (request_port atoi (codes "http") (codes "8080") ≡ 8080)
    × (request_port atoi (codes "http") (codes "0") ≡ 0)
    × (request_port atoi (codes "http") (codes "65536") ≡ 0)
    × (request_port atoi (codes "https") [] ≡ 443)
    × (request_port atoi (codes "rtmp") [] ≡ 1935)
    × (request_port atoi (codes "ftp") [] ≡ 0)
unfolding request_port atoi digits_value is_digit
ports = (refl, refl, refl, refl, refl, refl)

no_case : Bytes → Bytes → ℕ → Bool
no_case (x ∷ xs) (y ∷ ys) (suc n) = x == y && no_case xs ys n
no_case xs ys n = true

no_case_first : (xs ys : Bytes) (n : ℕ) → no_case (b'[' ∷ xs) (b'u' ∷ ys) (n + 1) ≡ false
unfolding no_case
no_case_first xs ys n = ground arith

-- parsers that take every address; `strncasecmp` without the cases
addresses : Addresses
unfolding scans no_case
addresses = record {
  searches = scans;
  atoi = atoi;
  inet_addr = λ t. some t;
  inet6_addr = λ t. some t;
  cpystrn = λ t n. take n t;
  strncasecmp = no_case;
  strncasecmp_first = no_case_first;
}

abbrev sa : Sockaddr
sa = record { family = unspecified; addr = []; port = 7; path = [] }

inet_length : (sock_pton addresses sa (codes "1.2.3.4:80")).0 ≡ 16
unfolding sock_pton addresses scans atoi digits_value is_digit
inet_length = refl

inet_ne_zero : (sock_pton addresses sa (codes "1.2.3.4:80")).0 ≢ 0
inet_ne_zero e = omega (arith, inet_length)

sock_pton-IsAddress_example : IsAddress addresses sa (sock_pton addresses sa (codes "1.2.3.4:80"))
sock_pton-IsAddress_example = sock_pton-IsAddress addresses sa (codes "1.2.3.4:80") inet_ne_zero

sock_pton_bracketed_example : sock_pton addresses sa (codes "[::1]") ≡ (0, sa)
sock_pton_bracketed_example = sock_pton_bracketed addresses sa (codes "::1") refl
