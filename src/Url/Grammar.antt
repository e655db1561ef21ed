-- ===== src/Url/Grammar.antt =====
-- The urls that `ngx_parse_request_url` accepts, and the fields that it sets for each.
use nginx_toolkit_module.Base.{◌≡◌, true, false, Option, none, some, ◌∷◌, ◌++◌, if◌then◌else◌}
use nginx_toolkit_module.Text.{Bytes, codes, has, clear}
use nginx_toolkit_module.Url.{RequestUrl, is_empty}

-- what follows the `/`
pub data Tail : Type 0 where
  bare : Bytes → Tail
  query : Bytes → Bytes → Tail
  fragment : Bytes → Bytes → Bytes → Tail

pub data Host : Type 0 where
  host : Bytes → Host
  port : Bytes → Bytes → Host

pub data Authority : Type 0 where
  anonymous : Host → Authority
  user : Bytes → Host → Authority

-- `tail` is `none` where there is no `/`
pub record Parts : Type 0 where
  pub scheme : Bytes
  pub authority : Authority
  pub tail : Option Tail

abbrev pub tail_text : Tail → Bytes
tail_text (bare p) = p
tail_text (query p a) = p ++ (b'?' ∷ a)
tail_text (fragment p a f) = p ++ (b'?' ∷ (a ++ (b'#' ∷ f)))

abbrev pub host_text : Host → Bytes
host_text (host h) = h
host_text (port h p) = h ++ (b':' ∷ p)

abbrev pub authority_text : Authority → Bytes
authority_text (anonymous h) = host_text h
authority_text (user n h) = n ++ (b'@' ∷ host_text h)

abbrev pub rest_text : Authority → Option Tail → Bytes
rest_text a none = authority_text a
rest_text a (some t) = authority_text a ++ (b'/' ∷ tail_text t)

-- scheme://[user@]host[:port][/path[?args[#fragment]]]
abbrev pub url_text : Parts → Bytes
url_text p = p.scheme ++ (codes "://" ++ rest_text p.authority p.tail)

-- The first `?` ends the path, and the first `#` behind it the arguments.
abbrev pub IsTail : Tail → Type 0
IsTail (bare p) = has b'?' p ≡ false
IsTail (query p a) = (has b'?' p ≡ false) × (has b'#' a ≡ false) × (is_empty a ≡ false)
IsTail (fragment p a f) = (has b'?' p ≡ false) × (has b'#' a ≡ false) × (is_empty f ≡ false)

abbrev pub IsHost : Host → Type 0
IsHost (host h) = has b':' h ≡ false
IsHost (port h p) = (has b':' h ≡ false) × (is_empty p ≡ false)

abbrev pub IsAuthority : Authority → Type 0
IsAuthority (anonymous h) = (has b'@' (host_text h) ≡ false) × IsHost h
IsAuthority (user n h) =
    (has b'@' n ≡ false) × (is_empty n ≡ false) × (is_empty (host_text h) ≡ false) × IsHost h

abbrev pub IsTail? : Option Tail → Type 0
IsTail? none = Unit
IsTail? (some t) = IsTail t

pub record IsUrl (p : Parts) : Type 0 where
  pub scheme : clear (codes "://") p.scheme (codes "://" ++ rest_text p.authority p.tail) ≡ true
  pub slash : has b'/' (authority_text p.authority) ≡ false
  pub authority : IsAuthority p.authority
  pub tail : IsTail? p.tail
  pub nonempty : is_empty (rest_text p.authority p.tail) ≡ false

-- the fields that each part sets; the others stay
abbrev pub set_tail : RequestUrl → Tail → RequestUrl
set_tail u (bare p) = if is_empty p then u else record u { path = p; uri_with_args = p }
set_tail u (query p a) = record u { path = p; args = a; uri_with_args = tail_text (query p a) }
set_tail u (fragment p a f) = record u {
  path = p;
  args = a;
  fragment = f;
  uri_with_args = tail_text (fragment p a f);
}

abbrev pub set_host : RequestUrl → Host → RequestUrl
set_host u (host h) = record u { host = h; host_with_port = h }
set_host u (port h p) = record u { host = h; port = p; host_with_port = host_text (port h p) }

abbrev pub set_authority : RequestUrl → Authority → RequestUrl
set_authority u (anonymous h) = set_host u h
set_authority u (user n h) = set_host (record u { user = n }) h

abbrev pub set_tail? : RequestUrl → Option Tail → RequestUrl
set_tail? u none = u
set_tail? u (some t) = set_tail u t

abbrev pub set_parts : RequestUrl → Parts → RequestUrl
set_parts u p = set_tail? (set_authority (record u { scheme = p.scheme }) p.authority) p.tail
