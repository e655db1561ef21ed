-- ===== src/HttpDynamic/Servers/Names/Accepts.antt =====
-- What the directive `server_name` makes of all its arguments.
use nginx_toolkit_module.Base.{ℕ, ◌≡◌, ◌≢◌, Bool, true, Option, none, some, List, [], ◌∷◌}
use nginx_toolkit_module.Text.{Bytes, codes}
use nginx_toolkit_module.HttpDynamic.Servers.{ServerName}
use nginx_toolkit_module.HttpDynamic.Servers.Names.{push_name}
use nginx_toolkit_module.HttpDynamic.Servers.Names.Forms.{Lowered, Caseless, NameForm}

module _ (compile : Bytes → Bool → Option ℕ) (hostname : Bytes) (memory : ℕ → Bool)
    (given : (n : ℕ) → memory n ≡ true) (server : ℕ) where
  abbrev push : Bytes → Bool × ServerName
  push = push_name compile hostname memory server

  -- the name of the server that an argument stands for: an expression behind a tilde, which
  -- compiles, the host's name, or the argument itself
  pub data NameFor (v : Bytes) (x : ServerName) : Type 0 where
    as_regex :
        (p : Bytes) (b : Bool) (r : ℕ)
        → v ≡ b'~' ∷ p
        → p ≢ []
        → Caseless p b
        → compile p b ≡ some r
        → x ≡ record { regex = some r; server = server; name = p }
        → NameFor v x
    as_hostname :
        (w : Bytes)
        → NameForm v
        → Lowered v (codes "$hostname")
        → Lowered hostname w
        → x ≡ record { regex = none; server = server; name = w }
        → NameFor v x
    as_name :
        (w : Bytes)
        → NameForm v
        → Lowered v w
        → w ≢ codes "$hostname"
        → x ≡ record { regex = none; server = server; name = w }
        → NameFor v x

  -- one name for each argument, in their order
  abbrev pub NamesFor : List Bytes → List ServerName → Type 0
  NamesFor [] [] = Unit
  NamesFor [] (x ∷ xs) = ⊥
  NamesFor (v ∷ vs) [] = ⊥
  NamesFor (v ∷ vs) (x ∷ xs) = NameFor v x × NamesFor vs xs
