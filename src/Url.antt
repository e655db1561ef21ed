-- ===== src/Url.antt =====
-- `ngx_parse_request_url` of ngx_toolkit_misc.c. A pointer into the url is the text from there on,
-- and a field of the result, a segment of the url, is that segment's text. The function writes
-- the fields it comes to and leaves the others, also where it fails: it takes the structure as it
-- was and returns it with the result code.
pub mod Grammar
pub mod RoundTrip
pub mod Accepts
mod Tests
use nginx_toolkit_module.Base.{
  ℕ, Bool, true, false, Option, none, some, List, [], ◌∷◌, ◌++◌, drop, if◌then◌else◌,
}
use nginx_toolkit_module.Text.{Bytes, codes, Searches}

pub record RequestUrl : Type 0 where
  pub scheme : Bytes
  pub user : Bytes
  pub host : Bytes
  pub port : Bytes
  pub path : Bytes
  pub args : Bytes
  pub fragment : Bytes
  pub host_with_port : Bytes
  pub uri_with_args : Bytes

pub data Code : Type 0 where
  ok error : Code

abbrev pub is_empty : Bytes → Bool
is_empty [] = true
is_empty (_ ∷ _) = false

module _ (s : Searches) where
  -- behind the `?`; `path` is the text from the path on
  pub parse_args : RequestUrl → Bytes → Bytes → Code × RequestUrl
  parse_args u path args = elim (s.strlchr args b'#') [
    | none ↦ (ok, record u { args = args; uri_with_args = path })
    | some (before, at) ↦
        let u' = record u { args = before } in
        let fragment = drop 1 at in
        if is_empty fragment
        then (error, u')
        else (ok, record u' { fragment = fragment; uri_with_args = path })
  ]

  -- behind the `/`, if there is one
  pub parse_path : RequestUrl → Bytes → Code × RequestUrl
  unfolding parse_args
  parse_path u path = if is_empty path then (ok, u) else elim (s.strlchr path b'?') [
    | none ↦ (ok, record u { path = path; uri_with_args = path })
    | some (before, at) ↦
        let u' = record u { path = before } in
        let args = drop 1 at in if is_empty args then (error, u') else parse_args u' path args
  ]

  -- the host and the port, up to `host_last`; `path` is what the last step reads
  pub parse_host : RequestUrl → Bytes → Bytes → Code × RequestUrl
  unfolding parse_path
  parse_host u host path = elim (s.strlchr host b':') [
    | none ↦ parse_path (record u { host = host; host_with_port = host }) path
    | some (before, at) ↦
        let u' = record u { host = before } in
        let port = drop 1 at in
        if is_empty port
        then (error, u')
        else parse_path (record u' { port = port; host_with_port = host }) path
  ]

  pub parse_user : RequestUrl → Bytes → Bytes → Code × RequestUrl
  unfolding parse_host
  parse_user u user path = elim (s.strlchr user b'@') [
    | none ↦ parse_host u user path
    | some (before, at) ↦
        if is_empty before
        then (error, u)
        else (let u' = record u { user = before } in
            let host = drop 1 at in if is_empty host then (error, u') else parse_host u' host path)
  ]

  -- behind the `://`: up to the first `/` stand user, host and port
  pub parse_rest : RequestUrl → Bytes → Code × RequestUrl
  unfolding parse_user
  parse_rest u user = elim (s.strlchr user b'/') [
    | none ↦ parse_user u user []
    | some (before, slash) ↦ parse_user u before (drop 1 slash)
  ]

  unfoldable pub parse_request_url : RequestUrl → Bytes → Code × RequestUrl
  unfolding parse_rest
  parse_request_url u url =
      if is_empty url then (error, u) else elim (s.strnstr url (codes "://")) [
        | none ↦ (error, u)
        | some (scheme, at) ↦
            let u' = record u { scheme = scheme } in
            let user = drop 3 at in if is_empty user then (error, u') else parse_rest u' user
      ]
