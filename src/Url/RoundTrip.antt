-- ===== src/Url/RoundTrip.antt =====
-- Every url of the grammar is parsed into its parts.
use nginx_toolkit_module.Base.{ℕ, ◌≡◌, refl, ◌∙◌, false, Option, none, some, [], ◌∷◌, ◌++◌}
use nginx_toolkit_module.Text.{Bytes, codes, has, Searches}
use nginx_toolkit_module.Url.{
  RequestUrl, ok, is_empty, parse_args, parse_path, parse_host, parse_user, parse_rest,
  parse_request_url,
}
use nginx_toolkit_module.Url.Grammar.{
  Tail, bare, query, fragment, Host, host, port, Authority, anonymous, user, Parts, tail_text,
  host_text, authority_text, rest_text, url_text, IsTail, IsHost, IsAuthority, IsTail?, IsUrl,
  set_tail, set_host, set_authority, set_tail?, set_parts,
}

pub is_empty-append : (xs : Bytes) (c : ℕ) (ys : Bytes) → is_empty (xs ++ (c ∷ ys)) ≡ false
is_empty-append [] c ys = refl
is_empty-append (x ∷ xs) c ys = refl

module _ (s : Searches) where
  parse_path-tail_text :
      (u : RequestUrl) (t : Tail) → IsTail t → parse_path s u (tail_text t) ≡ (ok, set_tail u t)
  unfolding parse_path parse_args
  parse_path-tail_text u (bare []) h = refl
  parse_path-tail_text u (bare (c ∷ p)) h = rw (s.strlchr_absent (c ∷ p) b'?' h)
  parse_path-tail_text u (query p a) (h, k, e) = rw (
    is_empty-append p b'?' a,
    s.strlchr_found p a b'?' h,
    e,
    parse_args,
    s.strlchr_absent a b'#' k,
  )
  parse_path-tail_text u (fragment p a f) (h, k, e) = rw (
    is_empty-append p b'?' (a ++ (b'#' ∷ f)),
    s.strlchr_found p (a ++ (b'#' ∷ f)) b'?' h,
    is_empty-append a b'#' f,
    parse_args,
    s.strlchr_found a f b'#' k,
    e,
  )

  pub parse_host-host_text :
      (u : RequestUrl) (h : Host) (path : Bytes)
      → IsHost h
      → parse_host s u (host_text h) path ≡ parse_path s (set_host u h) path
  unfolding parse_host
  parse_host-host_text u (host h) path a = rw (parse_host, s.strlchr_absent h b':' a)
  parse_host-host_text u (port h p) path (a, e) = rw (parse_host, s.strlchr_found h p b':' a, e)

  pub parse_user-authority_text :
      (u : RequestUrl) (a : Authority) (path : Bytes)
      → IsAuthority a
      → parse_user s u (authority_text a) path ≡ parse_path s (set_authority u a) path
  unfolding parse_user
  parse_user-authority_text u (anonymous h) path (a, k) =
      rw (parse_user, s.strlchr_absent (host_text h) b'@' a) (parse_host-host_text u h path k)
  parse_user-authority_text u (user n h) path (a, e, f, k) =
      rw (parse_user, s.strlchr_found n (host_text h) b'@' a, e, f)
        (parse_host-host_text (record u { user = n }) h path k)

  parse_rest-rest_text :
      (u : RequestUrl) (a : Authority) (t : Option Tail)
      → has b'/' (authority_text a) ≡ false
      → IsAuthority a
      → IsTail? t
      → parse_rest s u (rest_text a t) ≡ (ok, set_tail? (set_authority u a) t)
  unfolding parse_rest parse_path
  parse_rest-rest_text u a none h k l =
      rw (parse_rest, s.strlchr_absent (authority_text a) b'/' h)
        (parse_user-authority_text u a [] k)
  parse_rest-rest_text u a (some t) h k l =
      rw (parse_rest, s.strlchr_found (authority_text a) (tail_text t) b'/' h)
        (parse_user-authority_text u a (tail_text t) k
          ∙ parse_path-tail_text (set_authority u a) t l)

  -- Any url of the grammar scheme://[user@]host[:port][/path[?args[#fragment]]] without a NUL byte
  -- is accepted, each of its parts is put in its field, and the fields of absent parts are left
  -- as they were.
  pub parse_request_url-url_text :
      (u : RequestUrl) (p : Parts)
      → IsUrl p
      → has 0 (url_text p) ≡ false
      → parse_request_url s u (url_text p) ≡ (ok, set_parts u p)
  unfolding parse_request_url
  parse_request_url-url_text u p v z =
      rw
        (
          is_empty-append p.scheme b':' (b'/' ∷ b'/' ∷ rest_text p.authority p.tail),
          s.strnstr_found p.scheme (rest_text p.authority p.tail) (codes "://") z v.scheme,
          v.nonempty,
        )
        (parse_rest-rest_text (record u { scheme = p.scheme }) p.authority p.tail v.slash
          v.authority v.tail)
