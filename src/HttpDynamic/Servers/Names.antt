-- ===== src/HttpDynamic/Servers/Names.antt =====
-- The directive `server_name`: each of its arguments becomes a name of the server.
pub mod Accepts
pub mod Forms
use nginx_toolkit_module.Base.{
  ℕ, zero, suc, ◌+◌, Bool, true, false, not, ◌&&◌, ◌||◌, Option, none, some, List, [], ◌∷◌, ◌++◌,
  ◌==◌, if◌then◌else◌, length, ltb, leb, drop,
}
use nginx_toolkit_module.Text.{Bytes, codes}
use nginx_toolkit_module.Port.{bytes_eq}
use nginx_toolkit_module.HttpDynamic.Location.{byte_at}
use nginx_toolkit_module.HttpDynamic.Servers.{ServerName}

abbrev pub is_upper : ℕ → Bool
is_upper x = leb b'A' x && leb x b'Z'

-- ngx_tolower on each byte
abbrev pub lower : Bytes → Bytes
lower [] = []
lower (x ∷ xs) = (if is_upper x then x + 32 else x) ∷ lower xs

abbrev pub has_upper : Bytes → Bool
has_upper [] = false
has_upper (x ∷ xs) = is_upper x || has_upper xs

-- a wildcard that is no name
abbrev pub invalid : Bytes → Bool
invalid v =
    byte_at v 0 == b'*' && (ltb (length v) 3 || not (byte_at v 1 == b'.'))
    || byte_at v 0 == b'.' && ltb (length v) 2

-- `hostname` is that of the cycle, which the directive puts into lower case in place; `memory` is
-- whether ngx_array_push returns memory for the element at a place
module _ (compile : Bytes → Bool → Option ℕ) (hostname : Bytes) (memory : ℕ → Bool) where
  -- the name pushed, as it is before a regular expression is read
  abbrev pub plain_name : Bytes → Bytes
  plain_name v = if bytes_eq (lower v) (codes "$hostname") then hostname else v

  -- what an argument behind its check pushes, and whether the directive goes on
  unfoldable pub push_name : ℕ → Bytes → Bool × ServerName
  push_name server v =
      let pushed : ServerName = record { regex = none; server = server; name = plain_name v } in
      if not (byte_at v 0 == b'~')
      then (true, record pushed { name = lower (plain_name v) })
      else if length v == 1
      then (false, pushed)
      else elim (compile (drop 1 v) (has_upper (drop 1 v))) [
        | none ↦ (false, pushed)
        | some r ↦ (true, record pushed { regex = some r; name = drop 1 v })
      ]

  -- the arguments behind the directive's name
  unfoldable pub server_name : ℕ → List Bytes → List ServerName → Bool × List ServerName
  unfolding push_name
  server_name server [] names = (true, names)
  server_name server (v ∷ vs) names =
      let (go, pushed) = push_name server v in
      let rest = server_name server vs (names ++ (pushed ∷ [])) in
      if invalid v
      then (false, names)
      else if not (memory (length names))
      then (false, names)
      else if go
      then rest
      else (false, names ++ (pushed ∷ []))
