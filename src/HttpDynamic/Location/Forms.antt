-- ===== src/HttpDynamic/Location/Forms.antt =====
-- The two forms of the directive `location`.
use nginx_toolkit_module.Base.{ℕ, ◌≡◌, refl, Bool, true, not, Option, [], ◌∷◌, ◌++◌, ◌==◌, arith}
use nginx_toolkit_module.Text.{Bytes, codes}
use nginx_toolkit_module.HttpDynamic.Location.{
  LocConf, byte_at, with_modifier, with_name, predeal_location,
}

-- = and ^~, and a regular expression with the case of letters or without
pub data Modifier : Type 0 where
  exactly : Modifier
  no_regexes : Modifier
  with_case : Modifier
  without_case : Modifier

abbrev pub modifier_text : Modifier → Bytes
modifier_text exactly = codes "="
modifier_text no_regexes = codes "^~"
modifier_text with_case = codes "~"
modifier_text without_case = codes "~*"

-- the text that follows is not read as part of the modifier
abbrev pub splits : Modifier → Bytes → Bool
splits with_case name = not (byte_at name 0 == b'*')
splits _ name = true

module _ (compile : Bytes → Bool → Option ℕ) where
  -- A location directive with its modifier and its name in one argument makes of a location what
  -- the one with two arguments makes, for each modifier, unless the modifier is ~ and the name
  -- begins with *.
  pub predeal_location-joined :
      (m : Modifier) (d name : Bytes) (c : LocConf)
      → splits m name ≡ true
      → predeal_location compile (d ∷ (modifier_text m ++ name) ∷ []) c
        ≡ predeal_location compile (d ∷ modifier_text m ∷ name ∷ []) c
  unfolding predeal_location with_modifier with_name
  predeal_location-joined exactly d name c h = refl
  predeal_location-joined no_regexes d name c h = refl
  predeal_location-joined with_case d name c h = ground (arith, h)
  predeal_location-joined without_case d name c h = refl
