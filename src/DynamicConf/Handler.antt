-- ===== src/DynamicConf/Handler.antt =====
-- `ngx_dynamic_conf_handler` of ngx_dynamic_conf.c: the search for the command of a directive among
-- the modules, its checks and its call. What a command's `set` does is a parameter, a function of
-- the state that it is given with the command.
pub mod First
pub mod Decides
pub mod Answers
use nginx_toolkit_module.Base.{
  ℕ, ◌-◌, Bool, true, false, not, ◌&&◌, ◌||◌, Option, none, some, List, [], ◌∷◌, ◌==◌, ltb, length,
  get_elem?, if◌then◌else◌,
}
use nginx_toolkit_module.Text.{Bytes}
use nginx_toolkit_module.Port.{bytes_eq}
use nginx_toolkit_module.DynamicConf.Token.{Rc, error, ok, block_start, block_done, file_done}

-- the bits of `cmd->type` that the handler tests; `take n` is NGX_CONF_TAKEn, and `take 0`
-- NGX_CONF_NOARGS
pub data Flag : Type 0 where
  block any flag one_more two_more : Flag
  take : ℕ → Flag

-- what `cmd->set` returns: NGX_CONF_OK, NGX_CONF_ERROR or a message
pub data Rv : Type 0 where
  conf_ok conf_error message : Rv

-- `within` is whether the type has a bit of a `cmd_type`; `set` takes the words and the index of
-- the module's configuration. A name holds no NUL.
pub record Command (S : Type 0) : Type 0 where
  pub name : Bytes
  pub type : Flag → Bool
  pub within : ℕ → Bool
  pub set : List Bytes → ℕ → S → Rv × S

-- `commands` is spare_hook1, `none` where NULL; `conf_type` is whether the type is NGX_CONF_MODULE
pub record Module (S : Type 0) : Type 0 where
  pub type : ℕ
  pub conf_type : Bool
  pub ctx_index : ℕ
  pub commands : Option (List (Command S))

-- what is logged where the handler returns NGX_ERROR
pub data Refusal : Type 0 where
  not_terminated no_opening wrong_number not_allowed unknown : Refusal

pub data Search (S : Type 0) : Type 0 where
  missing : Bool → Search S
  refused : Refusal → Search S
  chosen : Command S → ℕ → Search S

-- the members of `cf` that the search reads, and `last`
pub record Place : Type 0 where
  pub module_type : ℕ
  pub cmd_type : ℕ
  pub last : Rc

abbrev pub arg_number : List Flag
arg_number = take 0 ∷ take 1 ∷ take 2 ∷ take 3 ∷ take 4 ∷ take 5 ∷ take 6 ∷ take 7 ∷ []

-- nginx's NGX_CONF_MAX_ARGS
abbrev pub max_args : ℕ
max_args = 8

abbrev pub is_ok : Rc → Bool
is_ok ok = true
is_ok _ = false

abbrev pub is_block_start : Rc → Bool
is_block_start block_start = true
is_block_start _ = false

abbrev pub type_has : (Flag → Bool) → Option Flag → Bool
type_has type none = false
type_has type (some f) = type f

-- whether the number of words is right
pub count_ok : (Flag → Bool) → ℕ → Bool
count_ok type n =
    if type any
    then true
    else if type flag
    then n == 2
    else if type one_more
    then not (ltb n 2)
    else if type two_more
    then not (ltb n 3)
    else if ltb max_args n
    then false
    else type_has type (get_elem? arg_number (n - 1))

module _ {S : Type 0} (place : Place) (name : Bytes) (n : ℕ) where
  -- a command at its place: the checks of its form
  pub check : Command S → ℕ → Search S
  unfolding count_ok
  check c index =
      if not (c.type block) && not (is_ok place.last)
      then refused not_terminated
      else if c.type block && not (is_block_start place.last)
      then refused no_opening
      else if count_ok c.type n
      then chosen c index
      else refused wrong_number

  abbrev pub same_name : Command S → Bool
  same_name c = bytes_eq name c.name

  -- is the directive's module and location right?
  abbrev pub allowed : Module S → Command S → Bool
  allowed m c = (m.conf_type || m.type == place.module_type) && c.within place.cmd_type

  pub commands_loop : Module S → Bool → List (Command S) → Search S
  unfolding check
  commands_loop m found [] = missing found
  commands_loop m found (c ∷ cs) =
      let rest = commands_loop m (found || same_name c) cs in
      if not (same_name c) then rest else if not (allowed m c) then rest else check c m.ctx_index

  abbrev pub go_on : Search S → (Bool → Search S) → Search S
  go_on (missing found) next = next found
  go_on (refused r) next = refused r
  go_on (chosen c index) next = chosen c index

  pub modules_loop : Bool → List (Module S) → Search S
  unfolding commands_loop
  modules_loop found [] = missing found
  modules_loop found (m ∷ ms) = elim m.commands [
    | none ↦ modules_loop found ms
    | some cs ↦ go_on (commands_loop m found cs) (λ found'. modules_loop found' ms)
  ]

abbrev pub of_set : {S : Type 0} → Rv × S → Rc × S
of_set (conf_ok, s) = (ok, s)
of_set (conf_error, s) = (error, s)
of_set (message, s) = (error, s)

-- what follows from the search
abbrev pub carry_out : {S : Type 0} → Search S → List Bytes → S → Rc × S
carry_out (missing found) words s = (error, s)
carry_out (refused r) words s = (error, s)
carry_out (chosen c index) words s = of_set (c.set words index s)

-- with the words of the directive, the first of which is its name
pub handler : {S : Type 0} → List (Module S) → Place → Bytes → List Bytes → S → Rc × S
unfolding modules_loop
handler modules place name words s =
    carry_out (modules_loop place name (length (name ∷ words)) false modules) (name ∷ words) s
