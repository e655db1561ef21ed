-- ===== src/DynamicConf/Parse/Returns.antt =====
-- The parser comes to an end.
use nginx_toolkit_module.Base.{
  ℕ, zero, suc, ◌≤◌, ◌<◌, ◌≡◌, refl, sym, ap, ◌∙◌, subst, inl, inr, ◌⊎◌, Bool, true, false, Option,
  some, List, [], ◌∷◌, ◌++◌, arith, length, drop, Bool-cases, All, All-imp,
}
use nginx_toolkit_module.Text.{Bytes}
use nginx_toolkit_module.DynamicConf.Token.{
  Rc, error, ok, block_start, block_done, file_done, fresh, none_yet, scan,
}
use nginx_toolkit_module.DynamicConf.Token.Room.{scan_rest}
use nginx_toolkit_module.DynamicConf.Token.Fed.{runs, scan-Fed}
use nginx_toolkit_module.DynamicConf.Reader.{
  File, ConfFile, Read, conf_buffer, end_of_file, read_token,
}
use nginx_toolkit_module.DynamicConf.Reader.Rounds.{IsFile, Scan-cases}
use nginx_toolkit_module.DynamicConf.Reader.Whole.{view, whole, whole_of, read_token-Reads}
use nginx_toolkit_module.DynamicConf.Handler.{Module, Command, Place, handler}
use nginx_toolkit_module.DynamicConf.Handler.First.{all_commands, handler-keeps}
use nginx_toolkit_module.DynamicConf.Parse.{dispatch, parse_loop, finish, handle, action}

module _ (memory : List Bytes → Bool) (file : File) (content : Bytes) where
  -- the text that is left to read
  abbrev pub left : ConfFile → Bytes
  left f = f.unread ++ drop f.offset content

  -- a directive was read: it has a word, and less text is left
  read_shorter :
      (f : ConfFile) (r : Read)
      → view memory file content r ≡ whole memory file content (fresh f.line) (left f)
      → runs r.rc ≡ true
      → (none_yet r.args ≡ false) × (length (left r.conf_file) < length (left f))
  read_shorter f r same runs_ = elim (Scan-cases (scan memory (fresh f.line) (left f))) [
    | inl (s, e) ↦
        let rc : r.rc ≡ end_of_file s =
          ap (λ (z : Rc × List Bytes × ℕ × Bytes). z.0)
            (same ∙ ap (whole_of memory file content) e) in
        absurd (ground arith)
    | inr (rc, s, rest, e) ↦
        let all = same ∙ ap (whole_of memory file content) e in
        let rc_ : r.rc ≡ rc = ap (λ (z : Rc × List Bytes × ℕ × Bytes). z.0) all in
        let args_ : r.args ≡ s.args = ap (λ (z : Rc × List Bytes × ℕ × Bytes). z.1) all in
        let left_ : left r.conf_file ≡ rest = ap (λ (z : Rc × List Bytes × ℕ × Bytes). z.3) all in
        (
          ap none_yet args_
              ∙ scan-Fed memory (fresh f.line) s (left f) rest rc refl e
                  (ap runs (sym rc_) ∙ runs_),
          omega (
            arith,
            ap (λ (z : Bytes). length z) left_,
            scan_rest memory (fresh f.line) s (left f) rest e,
          ),
        )
  ]

action-finish :
    (init : Bool) (rc : Rc) → runs rc ≡ false → (rc' : Rc) × (action init rc ≡ finish rc')
action-finish init error h = (_, refl)
action-finish init block_done h = (_, refl)
action-finish init file_done h = (_, refl)
action-finish init ok h = absurd (cc)
action-finish init block_start h = absurd (cc)

action-handle : (init : Bool) (rc : Rc) → runs rc ≡ true → action init rc ≡ handle
action-handle init error h = absurd (cc)
action-handle init block_done h = absurd (cc)
action-handle init file_done h = absurd (cc)
action-handle init ok h = refl
action-handle init block_start h = refl

module _ {W : Type 0} (memory : List Bytes → Bool) (file : File) (content : Bytes)
    (modules : List (Module (ConfFile × W))) (module_type cmd_type : ℕ) where
  -- the buffer is not overrun, and at most `n` bytes are left
  abbrev pub Bounded : ℕ → ConfFile × W → Type 0
  Bounded n s = (length s.0.unread ≤ conf_buffer) × (length (left memory file content s.0) ≤ n)

  -- no command leaves more to read than it found
  abbrev pub Steady : Type 0
  Steady =
      (n : ℕ)
      → All
          (λ (p : Module (ConfFile × W) × Command (ConfFile × W)).
            (s : ConfFile × W)
            → Bounded n s
            → (ws : List Bytes) (i : ℕ) → Bounded n (p.1.set ws i s).1)
          (all_commands modules)

  dispatch-Bounded :
      (n : ℕ) (rc : Rc) (args : List Bytes) (s : ConfFile × W)
      → Steady
      → none_yet args ≡ false
      → Bounded n s
      → (rc' : Rc) × (s' : ConfFile × W) × (dispatch file memory modules module_type cmd_type rc
            args s
          ≡ some (rc', s'))
        × Bounded n s'
  unfolding dispatch
  dispatch-Bounded n rc [] s steady h b = absurd (cc)
  dispatch-Bounded n rc (name ∷ words) s steady h b =
      let place : Place = record { module_type = module_type; cmd_type = cmd_type; last = rc } in
      let out = handler modules place name words s in
      (
        out.0,
        out.1,
        refl,
        handler-keeps (Bounded n) modules place name words s
            (All-imp (all_commands modules) (λ p f. f s b) (steady n)) b,
      )

  -- one round of the loop that carries a directive out
  parse_loop-handle :
      (fuel : ℕ) (init : Bool) (s s' : ConfFile × W) (r : Read) (rc : Rc)
      → read_token file memory s.0 ≡ some r
      → action init r.rc ≡ handle
      → dispatch file memory modules module_type cmd_type r.rc r.args (r.conf_file, s.1)
        ≡ some (rc, s')
      → (parse_loop file memory modules module_type cmd_type (suc fuel) init s ≡ some (error, s'))
        ⊎ (parse_loop file memory modules module_type cmd_type (suc fuel) init s
            ≡ parse_loop file memory modules module_type cmd_type fuel init s')
  unfolding parse_loop
  parse_loop-handle fuel init s s' r error e a d = inl (rw (parse_loop, e, a, d))
  parse_loop-handle fuel init s s' r ok e a d = inr (rw (parse_loop, e, a, d))
  parse_loop-handle fuel init s s' r block_start e a d = inr (rw (parse_loop, e, a, d))
  parse_loop-handle fuel init s s' r block_done e a d = inr (rw (parse_loop, e, a, d))
  parse_loop-handle fuel init s s' r file_done e a d = inr (rw (parse_loop, e, a, d))

  abbrev pub Result : Option (Rc × (ConfFile × W)) → Type 0
  Result x = (rc : Rc) × (s : ConfFile × W) × (x ≡ some (rc, s))

  abbrev Loops : ℕ → Bool → ConfFile × W → Type 0
  Loops fuel init s = Result (parse_loop file memory modules module_type cmd_type fuel init s)

  after_directive :
      (fuel n : ℕ) (init : Bool) (s : ConfFile × W) (r : Read)
      → Steady
      → Bounded n (r.conf_file, s.1)
      → read_token file memory s.0 ≡ some r
      → runs r.rc ≡ true
      → none_yet r.args ≡ false
      → ((s' : ConfFile × W) → Bounded n s' → Loops fuel init s')
      → Loops (suc fuel) init s
  after_directive fuel n init s r steady b e goes words next =
      let (rc, s', d, b') = dispatch-Bounded n r.rc r.args (r.conf_file, s.1) steady words b in
      elim (parse_loop-handle fuel init s s' r rc e (action-handle init r.rc goes) d) [
        | inl q ↦ (error, s', q)
        | inr q ↦ subst Result (sym q) (next s' b')
      ]

  -- one round; `next` is what the rounds behind it do
  round_returns :
      (fuel : ℕ) (init : Bool) (s : ConfFile × W)
      → IsFile file content
      → Steady
      → length s.0.unread ≤ conf_buffer
      → ((n : ℕ) (s' : ConfFile × W)
          → n < length (left memory file content s.0)
          → Bounded n s'
          → Loops fuel init s')
      → Loops (suc fuel) init s
  unfolding parse_loop
  round_returns fuel init s is steady b next =
      let (r, e, how, room) = read_token-Reads memory file content is s.0 b in
      elim (Bool-cases (runs r.rc)) [
        | inr stops ↦
            let (rc, a) = action-finish init r.rc stops in
            (rc, (r.conf_file, s.1), rw (parse_loop, e, a))
        | inl goes ↦ elim how [
          | inr (bad, _) ↦ absurd (cc (ap runs bad))
          | inl same ↦
              let (words, shorter) = read_shorter memory file content s.0 r same goes in
              let n = length (left memory file content r.conf_file) in
              let here : Bounded n (r.conf_file, s.1) = (room, omega arith) in
              after_directive fuel n init s r steady here e goes words
                (λ s' b'. next n s' shorter b')
        ]
      ]

  -- Where the file does not change while it is read and no command leaves more text than it found,
  -- ngx_dynamic_conf_parse comes to an end, with a result, after at most as many directives as
  -- there are bytes left to read, and never looks for the name of a directive without words.
  pub parse_loop-returns :
      (fuel : ℕ) (init : Bool) (s : ConfFile × W)
      → IsFile file content
      → Steady
      → Bounded fuel s
      → Result (parse_loop file memory modules module_type cmd_type (suc fuel) init s)
  parse_loop-returns zero init s is steady b =
      round_returns zero init s is steady b.0 λ n s' h b'. absurd (omega (arith, b.1))
  parse_loop-returns (suc fuel) init s is steady b =
      round_returns (suc fuel) init s is steady b.0
        λ n s' h b'. parse_loop-returns fuel init s' is steady (b'.0, omega (arith, b.1, b'.1))
