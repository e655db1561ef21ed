-- ===== src/DynamicConf/Tests.antt =====
-- A file with one directive, for a module that counts them.
use nginx_toolkit_module.Base.{
  ℕ, ◌+◌, ◌≡◌, refl, subst, ◌⊎◌, Bool, true, false, none, some, List, [], ◌∷◌, ◌++◌, arith, length,
  take, drop, ◌==◌,
}
use nginx_toolkit_module.Text.{Bytes, codes}
use nginx_toolkit_module.Poold.Numbered.{pools, nothing}
use nginx_toolkit_module.DynamicConf.Token.{error, ok}
use nginx_toolkit_module.DynamicConf.Token.Words.{words_text}
use nginx_toolkit_module.DynamicConf.Reader.{File, ConfFile}
use nginx_toolkit_module.DynamicConf.Reader.Rounds.{IsFile}
use nginx_toolkit_module.DynamicConf.Handler.{Flag, Rv, conf_ok, Command, Module, Place, handler}
use nginx_toolkit_module.DynamicConf.Handler.Answers.{Answers, handler-Answers}
use nginx_toolkit_module.DynamicConf.Parse.{parse_loop}
use nginx_toolkit_module.DynamicConf.Parse.Returns.{Steady, Result, parse_loop-returns}
use nginx_toolkit_module.DynamicConf.Load.{current, other, Confs, Hook, Dccf, Cycle, load_conf}
use nginx_toolkit_module.DynamicConf.Load.Outcome.{IsValid}
use nginx_toolkit_module.DynamicConf.Load.Ends.{Ends, load_conf-Ends}
use nginx_toolkit_module.DynamicConf.Load.Returns.{Readable}
use nginx_toolkit_module.DynamicConf.Check.{
  Opened, CheckResult, check_conf, process_init, close_file, add_timer,
}
use nginx_toolkit_module.DynamicConf.Check.Timer.{Checks, check_conf-Checks, process_init-calls}

abbrev memory : List Bytes → Bool
memory args = true

abbrev directive : List Bytes
directive = codes "listen" ∷ codes "8\"0" ∷ []

abbrev listen_text : Bytes
listen_text = words_text directive ++ codes ";\n"

abbrev file : File
file = record { size = length listen_text; read_file = λ n o. some (take n (drop o listen_text)) }

is_file : IsFile file listen_text
is_file = record { full = refl; bytes = λ n o. refl }

abbrev at_start : ConfFile
at_start = record { unread = []; offset = 0; line = 1 }

-- `listen` takes one argument, and counts
abbrev is_take1 : Flag → Bool
is_take1 (Flag.take n) = n == 1
is_take1 _ = false

abbrev count : List Bytes → ℕ → ConfFile × (Confs ℕ × ℕ) → Rv × (ConfFile × (Confs ℕ × ℕ))
count words i (f, (confs, n)) = (conf_ok, (f, (confs, n + 1)))

abbrev listen : Command (ConfFile × (Confs ℕ × ℕ))
listen = record { name = codes "listen"; type = is_take1; within = λ t. true; set = count }

abbrev modules : List (Module (ConfFile × (Confs ℕ × ℕ)))
modules = record { type = 5; conf_type = false; ctx_index = 0; commands = some (listen ∷ []) } ∷ []

abbrev world : Confs ℕ × ℕ
world = ((λ i. none), 0)

abbrev main : Place
main = record { module_type = 5; cmd_type = 1; last = ok }

handler-Answers_example :
    Answers main
      (codes "listen")
      modules
      (codes "listen" ∷ codes "80" ∷ [])
      (at_start, world)
      (handler modules main (codes "listen") (codes "80" ∷ []) (at_start, world))
handler-Answers_example =
    handler-Answers main (codes "listen") modules (codes "80" ∷ []) (at_start, world)

steady : Steady memory file listen_text modules 5 1
steady = λ n. ((λ s b ws i. b), tt)

parse_loop-returns_example :
    Result memory file listen_text modules 5 1
      (parse_loop file memory modules 5 1 31 true (at_start, world))
parse_loop-returns_example =
    parse_loop-returns memory file listen_text modules 5 1 30 true (at_start, world) is_file steady
      (omega arith, omega arith)

abbrev hook : Hook ℕ ℕ
hook = record { create_conf = some (λ w. (some 9, w)); init_conf = none }

abbrev cycle : Cycle ℕ ℕ
cycle = record {
  core_modules = record { core = true; ctx_index = 0; hook = some hook } ∷ [];
  modules = modules;
  core_module = 5;
  main_conf = 1;
  pool_size = 16384;
}

abbrev dccf : Dccf ℕ
dccf = record {
  conf0 = none;
  conf1 = none;
  used = true;
  file_name = codes "d.conf";
  refresh = 500;
  md5key = codes "0";
}

dccf-IsValid : IsValid pools dccf nothing
unfolding other current
dccf-IsValid = record { alone = refl; live = λ ctx e. absurd cc }

abbrev opened : Opened
opened = record { fd = 3; file = file; md5 = some (codes "1") }

readable : Readable memory cycle file listen_text
readable = record { is_file = is_file; steady = steady }

load_conf-Ends_example :
    Ends pools memory cycle dccf nothing (load_conf pools memory cycle true file dccf nothing 0)
load_conf-Ends_example =
    load_conf-Ends pools memory cycle file listen_text true dccf nothing 0 readable dccf-IsValid

opened_readable : (o : Opened) → some opened ≡ some o → Readable memory cycle o.file listen_text
opened_readable o e =
    let e' : opened ≡ o = cc in
    subst (λ (z : Opened). Readable memory cycle z.file listen_text) e' readable

check_conf-Checks_example :
    Checks pools memory cycle true
      (some opened)
      dccf
      nothing
      (check_conf pools memory cycle true false (some opened) dccf nothing 0)
check_conf-Checks_example =
    check_conf-Checks pools memory cycle true (some opened) listen_text dccf nothing 0
      opened_readable

-- without memory for the configuration
abbrev refused : CheckResult pools memory cycle false
refused = record {
  answer = error;
  dccf = dccf;
  heap = (pools.destroy 1 (pools.create 16384 nothing).1);
  world = 0;
  calls = [];
}

no_memory : process_init pools memory cycle false (some opened) dccf nothing 0 ≡ some refused
unfolding process_init load_conf
no_memory = refl

process_init-calls_example :
    (r : CheckResult pools memory cycle false) × (process_init pools memory cycle false
        (some opened)
        dccf
        nothing
        0
      ≡ some r)
    × (((r.answer ≡ ok) × (r.calls ≡ close_file (some 3) ∷ (add_timer r.dccf.refresh ∷ [])))
        ⊎ ((r.answer ≡ error) × (r.calls ≡ [])))
process_init-calls_example =
    process_init-calls pools memory cycle false opened listen_text dccf nothing 0 readable refl
