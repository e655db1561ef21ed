-- ===== src/DynamicConf/Check.antt =====
-- ngx_dynamic_conf.c: the directive `dynamic_conf`, the configuration's timer and the start of a
-- process. What the system says of the file is an argument; the calls that the functions make
-- are returned in order.
pub mod Timer
use nginx_toolkit_module.Base.{
  ℕ, Bool, true, false, Option, none, some, List, [], ◌∷◌, ◌==◌, if◌then◌else◌,
}
use nginx_toolkit_module.Text.{Bytes}
use nginx_toolkit_module.Port.{bytes_eq}
use nginx_toolkit_module.Url.{is_empty}
use nginx_toolkit_module.Poold.{Pools}
use nginx_toolkit_module.DynamicConf.Token.{Rc, ok, error}
use nginx_toolkit_module.DynamicConf.Reader.{File}
use nginx_toolkit_module.DynamicConf.Load.{Dccf, Cycle, Loaded, loaded, stuck, load_conf}

-- NGX_CONF_UNSET_MSEC, and NGX_ERROR as an ngx_msec_t
abbrev pub unset : ℕ
unset = 0xffff_ffff_ffff_ffff

module _ {C : Type 0} where
  pub create_conf : Dccf C
  create_conf = record {
    conf0 = none;
    conf1 = none;
    used = false;
    file_name = [];
    refresh = unset;
    md5key = [];
  }

  pub init_conf : Dccf C → Dccf C
  init_conf d = if d.refresh == unset then record d { refresh = 60000 } else d

-- what the directive returns, and the configuration that it leaves
pub data Directive (C : Type 0) : Type 0 where
  done : Dccf C → Directive C
  duplicate conf_error invalid_refresh : Dccf C → Directive C

-- what nginx and the system answer: ngx_conf_full_name (`none` where it fails), whether the file can
-- be opened, ngx_parse_time
pub record Answers : Type 0 where
  pub full_name : Bytes → Option Bytes
  pub opens : Bytes → Bool
  pub parse_time : Bytes → ℕ

module _ {C : Type 0} (a : Answers) where
  with_refresh : ℕ → Dccf C → Directive C
  with_refresh refresh d =
      let d' = record d { refresh = refresh } in
      if refresh == unset then invalid_refresh d' else done (record d' { used = true })

  -- the directive with its two words
  pub dynamic_conf : Bytes → Bytes → Dccf C → Directive C
  unfolding with_refresh
  dynamic_conf name time d =
      if is_empty d.file_name
      then elim (a.full_name name) [
        | none ↦ conf_error (record d { file_name = name })
        | some full ↦
            let d' = record d { file_name = full } in
            if a.opens full then with_refresh (a.parse_time time) d' else conf_error d'
      ]
      else duplicate d

-- an open file: its descriptor, what reading it gives, and its MD5, `none` where reading fails
pub record Opened : Type 0 where
  pub fd : ℕ
  pub file : File
  pub md5 : Option Bytes

-- `none` is NGX_INVALID_FILE. `add_timer` is a call of ngx_event_timer_add_timer with a time in
-- milliseconds; what it returns, NGX_ERROR without a free timer among it, the code does not read.
pub data Call : Type 0 where
  close_file : Option ℕ → Call
  add_timer : ℕ → Call

module _ {C U : Type 0} (pools : Pools) (memory : List Bytes → Bool) (cycle : Cycle C U)
    (room : Bool) where
  -- `answer` is what the function returns
  pub record CheckResult : Type 0 where
    pub answer : Rc
    pub dccf : Dccf C
    pub heap : pools.Heap
    pub world : U
    pub calls : List Call

  abbrev at_done : Option ℕ → Dccf C → pools.Heap → U → Option CheckResult
  at_done fd d h u = some (record {
    answer = ok;
    dccf = d;
    heap = h;
    world = u;
    calls = close_file fd ∷ (add_timer d.refresh ∷ []);
  })

  pub checked : ℕ → Bytes → Loaded C U pools.Heap → Option CheckResult
  checked fd key stuck = none
  checked fd key (loaded false d h u) = at_done (some fd) d h u
  checked fd key (loaded true d h u) = at_done (some fd) (record d { md5key = key }) h u

  pub check_opened : Opened → Dccf C → pools.Heap → U → Option CheckResult
  unfolding checked
  check_opened o d h u = elim o.md5 [
    | none ↦ at_done (some o.fd) d h u
    | some key ↦
        if bytes_eq d.md5key key
        then at_done (some o.fd) d h u
        else checked o.fd key (load_conf pools memory cycle room o.file d h u)
  ]

  -- `exiting` is ngx_exiting, `opened` what ngx_open_file gives
  pub check_conf : Bool → Option Opened → Dccf C → pools.Heap → U → Option CheckResult
  unfolding check_opened
  check_conf true opened d h u =
      some (record { answer = ok; dccf = d; heap = h; world = u; calls = [] })
  check_conf false none d h u = at_done none d h u
  check_conf false (some o) d h u = check_opened o d h u

  abbrev fails : Dccf C → pools.Heap → U → Option CheckResult
  fails d h u = some (record { answer = error; dccf = d; heap = h; world = u; calls = [] })

  unfoldable pub started : ℕ → Option Bytes → Loaded C U pools.Heap → Option CheckResult
  started fd md5 stuck = none
  started fd md5 (loaded false d h u) = fails d h u
  started fd none (loaded true d h u) = fails d h u
  started fd (some key) (loaded true d h u) = at_done (some fd) (record d { md5key = key }) h u

  unfoldable pub process_init : Option Opened → Dccf C → pools.Heap → U → Option CheckResult
  unfolding started
  process_init opened d h u =
      if is_empty d.file_name
      then some (record { answer = ok; dccf = d; heap = h; world = u; calls = [] })
      else elim opened [
        | none ↦ fails d h u
        | some o ↦ started o.fd o.md5 (load_conf pools memory cycle room o.file d h u)
      ]
