-- ===== src/DynamicConf/Parse.antt =====
-- `ngx_dynamic_conf_parse` of ngx_dynamic_conf.c: directives are read and carried out, one after the
-- other, up to the end of the file or of the block. The state is the file as far as it is read and
-- a world `W` that the commands work on; a command of a block reads on in the same file.
pub mod Returns
use nginx_toolkit_module.Base.{
  ℕ, zero, suc, Bool, true, false, Option, none, some, List, [], ◌∷◌, if◌then◌else◌,
}
use nginx_toolkit_module.Text.{Bytes}
use nginx_toolkit_module.DynamicConf.Token.{Rc, error, ok, block_start, block_done, file_done}
use nginx_toolkit_module.DynamicConf.Reader.{File, ConfFile, Read, read_token}
use nginx_toolkit_module.DynamicConf.Handler.{Module, Place, handler}

pub data Action : Type 0 where
  finish : Rc → Action
  handle : Action

-- what the result of read_token leads to; `init` is whether `type` is parse_init
abbrev pub action : Bool → Rc → Action
action init error = finish error
action init block_done = finish (if init then error else ok)
action init file_done = finish (if init then ok else error)
action init ok = handle
action init block_start = handle

module _ {W : Type 0} (file : File) (memory : List Bytes → Bool)
    (modules : List (Module (ConfFile × W))) (module_type cmd_type : ℕ) where
  -- the handler reads the first word; `none` where there is none
  pub dispatch : Rc → List Bytes → ConfFile × W → Option (Rc × (ConfFile × W))
  dispatch rc [] s = none
  dispatch rc (name ∷ words) s = some (
      handler modules (record { module_type = module_type; cmd_type = cmd_type; last = rc }) name
        words s)

  -- the rounds left; `none` where they run out, too
  pub parse_loop : ℕ → Bool → ConfFile × W → Option (Rc × (ConfFile × W))
  unfolding dispatch
  parse_loop zero init s = none
  parse_loop (suc fuel) init s = elim (read_token file memory s.0) [
    | none ↦ none
    | some r ↦ elim (action init r.rc) [
      | finish rc ↦ some (rc, (r.conf_file, s.1))
      | handle ↦ elim (dispatch r.rc r.args (r.conf_file, s.1)) [
        | none ↦ none
        | some (rc, s') ↦ elim rc [ error ↦ some (error, s') | _ ↦ parse_loop fuel init s' ]
      ]
    ]
  ]
