-- ===== src/DynamicConf/Token.antt =====
-- The loop of `ngx_dynamic_conf_read_token` in ngx_dynamic_conf.c, but for its refilling of the
-- buffer: what one byte does to the variables of the function. `token` is the text from `start`
-- to `b->pos`; a word is taken from it when its end is read.
pub mod Escape
pub mod Quotes
pub mod Words
pub mod Room
pub mod Fed
mod Tests
use nginx_toolkit_module.Base.{
  ℕ, ◌+◌, Bool, true, false, ◌&&◌, ◌||◌, List, [], ◌∷◌, ◌++◌, ◌==◌, if◌then◌else◌,
}
use nginx_toolkit_module.Text.{Bytes}

-- the results of read_token, and NGX_OK and NGX_ERROR of its callers
pub data Rc : Type 0 where
  error ok block_start block_done file_done : Rc

pub record Scanner : Type 0 where
  pub need_space : Bool
  pub last_space : Bool
  pub sharp_comment : Bool
  pub variable : Bool
  pub quoted : Bool
  pub s_quoted : Bool
  pub d_quoted : Bool
  pub token : Bytes
  pub args : List Bytes
  pub line : ℕ
  pub start_line : ℕ

abbrev pub lf : ℕ
lf = 10

abbrev pub cr : ℕ
cr = 13

abbrev pub tab : ℕ
tab = 9

-- the start of a call, at a line
abbrev pub fresh : ℕ → Scanner
fresh line = record {
  need_space = false;
  last_space = true;
  sharp_comment = false;
  variable = false;
  quoted = false;
  s_quoted = false;
  d_quoted = false;
  token = [];
  args = [];
  line = line;
  start_line = line;
}

pub data Next : Type 0 where
  more : Scanner → Next
  stop : Rc → Scanner → Next

abbrev pub is_space : ℕ → Bool
is_space c = c == b' ' || c == tab || c == cr || c == lf

abbrev pub none_yet : List Bytes → Bool
none_yet [] = true
none_yet (_ ∷ _) = false

-- `\"`, `\'` and `\\` stand for their second byte
abbrev pub is_escapable : ℕ → Bool
is_escapable c = c == b'"' || c == b'\'' || c == b'\\'

-- The copy of a word. `ch` is the byte behind it, which `src[1]` reads at a last backslash.
pub unescape : Bytes → ℕ → Bytes
unescape [] ch = []
unescape (c ∷ []) ch =
    if c == b'\\'
    then (if is_escapable ch
        then ch ∷ []
        else if ch == b't'
        then tab ∷ []
        else if ch == b'r'
        then cr ∷ []
        else if ch == b'n'
        then lf ∷ []
        else c ∷ [])
    else c ∷ []
unescape (c ∷ d ∷ src) ch =
    let one = unescape (d ∷ src) ch in
    let two = unescape src ch in
    if c == b'\\'
    then (if is_escapable d
        then d ∷ two
        else if d == b't'
        then tab ∷ two
        else if d == b'r'
        then cr ∷ two
        else if d == b'n'
        then lf ∷ two
        else c ∷ one)
    else c ∷ one

-- `ch` has been read, and counted where it ends a line and a comment
abbrev pub advance : Scanner → ℕ → Scanner
advance s ch = record s {
  token = s.token ++ (ch ∷ []);
  line = if ch == lf then s.line + 1 else s.line;
  sharp_comment = if ch == lf then false else s.sharp_comment;
}

-- the branch `last_space`
pub at_space : Scanner → ℕ → Next
at_space s ch =
    let s' = record s { token = ch ∷ []; start_line = s.line } in
    if is_space ch
    then more s
    else if ch == b';'
    then (if none_yet s.args then stop error s' else stop ok s')
    else if ch == b'{'
    then (if none_yet s.args then stop error s' else stop block_start s')
    else if ch == b'}'
    then (if none_yet s.args then stop block_done s' else stop error s')
    else if ch == b'#'
    then more (record s' { sharp_comment = true })
    else if ch == b'\\'
    then more (record s' { quoted = true; last_space = false })
    else if ch == b'"'
    then more (record s' { token = []; d_quoted = true; last_space = false })
    else if ch == b'\''
    then more (record s' { token = []; s_quoted = true; last_space = false })
    else more (record s' { last_space = false })

-- the branch `need_space`, behind a closing quote
pub after_quote : Scanner → ℕ → Next
unfolding at_space
after_quote s ch =
    if is_space ch
    then more (record s { last_space = true; need_space = false })
    else if ch == b';'
    then stop ok s
    else if ch == b'{'
    then stop block_start s
    else if ch == b')'
    then at_space (record s { last_space = true; need_space = false }) ch
    else stop error s

-- what reading the bytes at hand leads to: more are wanted, or the call returns, with the rest
pub data Scan : Type 0 where
  exhausted : Scanner → Scan
  returned : Rc → Scanner → Bytes → Scan

-- `memory` is whether there is memory for a word behind those read
module _ (memory : List Bytes → Bool) where
  -- the word `body` is found, with `ch` behind it
  pub found : Bytes → Scanner → ℕ → Next
  unfolding unescape
  found body s ch =
      let s' = record s { args = s.args ++ (unescape body ch ∷ []) } in
      if memory s.args
      then (if ch == b';' then stop ok s' else if ch == b'{' then stop block_start s' else more s')
      else stop error s

  -- inside a word whose text before `ch` is `body`
  pub in_word : Bytes → Scanner → ℕ → Next
  unfolding found
  in_word body s ch =
      let s' = record s { variable = false } in
      if ch == b'{' && s.variable
      then more s
      else if ch == b'\\'
      then more (record s' { quoted = true })
      else if ch == b'$'
      then more (record s' { variable = true })
      else if s.d_quoted
      then (if ch == b'"'
          then found body (record s' { d_quoted = false; need_space = true }) ch
          else more s')
      else if s.s_quoted
      then (if ch == b'\''
          then found body (record s' { s_quoted = false; need_space = true }) ch
          else more s')
      else if is_space ch || ch == b';' || ch == b'{'
      then found body (record s' { last_space = true }) ch
      else more s'

  pub step_at : Bytes → Scanner → ℕ → Next
  unfolding after_quote in_word
  step_at body s ch =
      if s.sharp_comment
      then more s
      else if s.quoted
      then more (record s { quoted = false })
      else if s.need_space
      then after_quote s ch
      else if s.last_space
      then at_space s ch
      else in_word body s ch

  -- one byte
  pub step : Scanner → ℕ → Next
  unfolding step_at
  step s ch = step_at s.token (advance s ch) ch

  -- the bytes at hand
  pub scan : Scanner → Bytes → Scan
  scan s [] = exhausted s
  scan s (c ∷ cs) = elim (step s c) [ more s' ↦ scan s' cs | stop rc s' ↦ returned rc s' cs ]
