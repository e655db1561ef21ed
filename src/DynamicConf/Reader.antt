-- ===== src/DynamicConf/Reader.antt =====
-- `ngx_dynamic_conf_read_token` of ngx_dynamic_conf.c: the buffer of NGX_CONF_BUFFER bytes that the
-- scanner reads from. A refill moves the text from `start` on to the front of the buffer and reads
-- behind it as much of the file as there is room for. The file is a parameter.
pub mod Rounds
pub mod Whole
use nginx_toolkit_module.Base.{
  ℕ, zero, suc, ◌+◌, ◌-◌, Bool, true, false, not, ◌||◌, Option, none, some, List, [], ◌∷◌, ◌==◌,
  leb, min, length, if◌then◌else◌,
}
use nginx_toolkit_module.Text.{Bytes}
use nginx_toolkit_module.DynamicConf.Token.{
  Rc, error, file_done, Scanner, fresh, none_yet, exhausted, returned, Scan, scan,
}

-- ngx_file_size, and what ngx_read_file returns for a size and an offset; `none` is NGX_ERROR
pub record File : Type 0 where
  pub size : ℕ
  pub read_file : ℕ → ℕ → Option Bytes

-- `unread` is the text from `b->pos` to `b->last`
pub record ConfFile : Type 0 where
  pub unread : Bytes
  pub offset : ℕ
  pub line : ℕ

pub record Read : Type 0 where
  pub rc : Rc
  pub args : List Bytes
  pub conf_file : ConfFile

abbrev pub conf_buffer : ℕ
conf_buffer = 4096

pub data Refill : Type 0 where
  gives_up : Rc → ℕ → Refill
  loaded : Bytes → Refill

-- at the end of the file
abbrev pub end_of_file : Scanner → Rc
end_of_file s = if not (none_yet s.args) || not s.last_space then error else file_done

module _ (file : File) where
  -- where `b->pos >= b->last`: the result with its line, or the bytes read
  pub refill : Scanner → ℕ → Refill
  refill s offset =
      let len = length s.token in
      let size = min (file.size - offset) (conf_buffer - len) in
      if leb file.size offset
      then gives_up (end_of_file s) s.line
      else if len == conf_buffer
      then gives_up error s.start_line
      else elim (file.read_file size offset) [
        | none ↦ gives_up error s.line
        | some bytes ↦ if length bytes == size then loaded bytes else gives_up error s.line
      ]

  module _ (memory : List Bytes → Bool) where
    -- the rounds of reading that are left; `none` where they run out
    pub read_loop : ℕ → Scanner → Bytes → ℕ → Option Read
    unfolding refill
    read_loop zero s unread offset = none
    read_loop (suc fuel) s unread offset = elim (scan memory s unread) [
      | returned rc s' rest ↦ some (record {
        rc = rc;
        args = s'.args;
        conf_file = record { unread = rest; offset = offset; line = s'.line };
      })
      | exhausted s' ↦ elim (refill s' offset) [
        | gives_up rc line ↦ some (record {
          rc = rc;
          args = s'.args;
          conf_file = record { unread = []; offset = offset; line = line };
        })
        | loaded bytes ↦ read_loop fuel s' bytes (offset + length bytes)
      ]
    ]

    -- each round but the last reads a byte of the file at least
    pub read_token : ConfFile → Option Read
    unfolding read_loop
    read_token f = read_loop (suc file.size) (fresh f.line) f.unread f.offset
