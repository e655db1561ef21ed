-- ===== src/Url/Accepts.antt =====
-- Only the urls of the grammar are accepted.
use nginx_toolkit_module.Base.{
  ◌≡◌, refl, ◌∙◌, ◌⊎◌, inl, inr, false, Option, none, some, [], ◌∷◌, ◌++◌, Bool-cases, arith,
}
use nginx_toolkit_module.Text.{Bytes, codes, has, Searches, cut, cut_text}
use nginx_toolkit_module.Url.{
  RequestUrl, ok, error, is_empty, parse_args, parse_path, parse_host, parse_user, parse_rest,
  parse_request_url,
}
use nginx_toolkit_module.Url.Grammar.{
  Tail, bare, query, fragment, Host, host, port, Authority, anonymous, user, Parts, tail_text,
  host_text, authority_text, rest_text, url_text, IsTail, IsHost, IsAuthority, IsTail?, IsUrl,
  set_authority,
}
use nginx_toolkit_module.Url.RoundTrip.{is_empty-append, parse_user-authority_text}

module _ (s : Searches) where
  tail_cases :
      (path : Bytes)
      → ((t : Tail) × IsTail t × (path ≡ tail_text t))
        ⊎ ((u : RequestUrl) → (parse_path s u path).0 ≡ error)
  unfolding parse_path
  tail_cases path = elim (cut b'?' path) [
    | inl a ↦ inl (bare path, a, refl)
    | inr (p, r, e, a) ↦ elim (Bool-cases (is_empty r)) [
      | inl er ↦
          inr λ u. rw (e, is_empty-append p b'?' r, parse_path, s.strlchr_found p r b'?' a, er)
      | inr er ↦ elim (cut b'#' r) [
        | inl b ↦ inl (query p r, (a, b, er), e)
        | inr (q, f, e', b) ↦ elim (Bool-cases (is_empty f)) [
          | inl ef ↦ inr λ u. rw (
            e,
            is_empty-append p b'?' r,
            parse_path,
            s.strlchr_found p r b'?' a,
            er,
            parse_args,
            e',
            s.strlchr_found q f b'#' b,
            ef,
          )
          | inr ef ↦ inl (fragment p q f, (a, b, ef), rw (e, e'))
        ]
      ]
    ]
  ]

  host_cases :
      (text : Bytes)
      → ((h : Host) × IsHost h × (text ≡ host_text h))
        ⊎ ((u : RequestUrl) (path : Bytes) → (parse_host s u text path).0 ≡ error)
  unfolding parse_host
  host_cases text = elim (cut b':' text) [
    | inl a ↦ inl (host text, a, refl)
    | inr (h, p, e, a) ↦ elim (Bool-cases (is_empty p)) [
      | inl ep ↦ inr λ u path. rw (e, parse_host, s.strlchr_found h p b':' a, ep)
      | inr ep ↦ inl (port h p, (a, ep), e)
    ]
  ]

  authority_cases :
      (text : Bytes)
      → ((a : Authority) × IsAuthority a × (text ≡ authority_text a))
        ⊎ ((u : RequestUrl) (path : Bytes) → (parse_user s u text path).0 ≡ error)
  unfolding parse_user
  authority_cases text = elim (cut b'@' text) [
    | inl a ↦ elim (host_cases text) [
      | inl (h, k, e) ↦ inl (anonymous h, (rw (← e) a, k), e)
      | inr no_host ↦ inr λ u path. rw (parse_user, s.strlchr_absent text b'@' a) (no_host u path)
    ]
    | inr (n, r, e, a) ↦ elim (Bool-cases (is_empty n)) [
      | inl en ↦ inr λ u path. rw (e, parse_user, s.strlchr_found n r b'@' a, en)
      | inr en ↦ elim (Bool-cases (is_empty r)) [
        | inl er ↦ inr λ u path. rw (e, parse_user, s.strlchr_found n r b'@' a, en, er)
        | inr er ↦ elim (host_cases r) [
          | inl (h, k, e') ↦ inl (user n h, (a, en, rw (← e') er, k), e ∙ rw e')
          | inr no_host ↦ inr λ u path.
              rw (e, parse_user, s.strlchr_found n r b'@' a, en, er)
                (no_host (record u { user = n }) path)
        ]
      ]
    ]
  ]

  Rest : Bytes → Type 0
  Rest rest =
      (a : Authority) × (t : Option Tail) × (has b'/' (authority_text a) ≡ false)
      × IsAuthority a
      × IsTail? t
      × (rest ≡ rest_text a t)

  Rest-cases : (rest : Bytes) → Rest rest ⊎ ((u : RequestUrl) → (parse_rest s u rest).0 ≡ error)
  unfolding Rest parse_rest
  Rest-cases rest = elim (cut b'/' rest) [
    | inl a ↦ elim (authority_cases rest) [
      | inl (x, k, e) ↦ inl (x, none, rw (← e) a, k, tt, e)
      | inr bad ↦ inr λ u. rw (parse_rest, s.strlchr_absent rest b'/' a) (bad u [])
    ]
    | inr (p, r, e, a) ↦ elim (authority_cases p) [
      | inl (x, k, e') ↦ elim (tail_cases r) [
        | inl (t, l, e'') ↦ inl (x, some t, rw (← e') a, k, l, rw (e, e', e''))
        | inr bad ↦ inr λ u.
            rw (e, parse_rest, s.strlchr_found p r b'/' a, e', parse_user-authority_text s u x r k)
              (bad (set_authority u x))
      ]
      | inr bad ↦ inr λ u. rw (e, parse_rest, s.strlchr_found p r b'/' a) (bad u r)
    ]
  ]

  IsUrl-cases :
      (url : Bytes)
      → has 0 url ≡ false
      → ((p : Parts) × IsUrl p × (url ≡ url_text p))
        ⊎ ((u : RequestUrl) → (parse_request_url s u url).0 ≡ error)
  unfolding parse_request_url Rest
  IsUrl-cases url z = elim (cut_text (codes "://") url) [
    | inl a ↦ inr λ u. ground (arith, s.strnstr_absent url (codes "://") z a)
    | inr (p, r, e, a) ↦
        let z' : has 0 (p ++ (codes "://" ++ r)) ≡ false = rw (← e) z in
        let found = s.strnstr_found p r (codes "://") z' a in
        elim (Bool-cases (is_empty r)) [
          | inl er ↦ inr λ u. rw (e, is_empty-append p b':' (b'/' ∷ b'/' ∷ r), found, er)
          | inr er ↦ elim (Rest-cases r) [
            | inl (x, t, slash, k, l, e') ↦ inl (
              record { scheme = p; authority = x; tail = t },
              record {
                scheme = rw (← e') a;
                slash = slash;
                authority = k;
                tail = l;
                nonempty = rw (← e') er;
              },
              rw (e, e'),
            )
            | inr bad ↦ inr λ u.
                rw (e, is_empty-append p b':' (b'/' ∷ b'/' ∷ r), found, er)
                  (bad (record u { scheme = p }))
          ]
        ]
  ]

  -- A text without a NUL byte that is accepted is a url of the grammar
  -- scheme://[user@]host[:port][/path[?args[#fragment]]].
  pub parse_request_url-ok :
      (u : RequestUrl) (url : Bytes)
      → has 0 url ≡ false
      → (parse_request_url s u url).0 ≡ ok
      → (p : Parts) × IsUrl p × (url ≡ url_text p)
  parse_request_url-ok u url z h = elim (IsUrl-cases url z) [
    | inl p ↦ p
    | inr bad ↦ absurd (cc (bad u))
  ]
