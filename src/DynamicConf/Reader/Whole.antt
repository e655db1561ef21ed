-- ===== src/DynamicConf/Reader/Whole.antt =====
-- Reading through the buffer against scanning the rest of the file in one piece.
use nginx_toolkit_module.Base.{
  ℕ, zero, suc, ◌+◌, ◌-◌, ◌≤◌, ◌<◌, min, ◌≡◌, refl, sym, ap, ◌∙◌, subst, ◌⊎◌, inl, inr, Bool,
  Option, some, List, [], ◌++◌, append_assoc, arith, ◌==◌, leb, length, take, drop, take-drop,
  length-take_all, length-drop, drop_all, Bool-cases,
}
use nginx_toolkit_module.Text.{Bytes}
use nginx_toolkit_module.DynamicConf.Token.{
  Rc, error, Scanner, fresh, Scan, exhausted, returned, scan,
}
use nginx_toolkit_module.DynamicConf.Token.Room.{
  resume, scan-nil, scan_room, scan_rest, scan-append,
}
use nginx_toolkit_module.DynamicConf.Reader.{
  File, ConfFile, Read, conf_buffer, Refill, gives_up, loaded, end_of_file, refill, read_loop,
  read_token,
}
use nginx_toolkit_module.DynamicConf.Reader.Rounds.{
  IsFile, Scan-cases, refill_end, refill_full, refill_loaded,
}

module _ (memory : List Bytes → Bool) (file : File) (content : Bytes) where
  -- the result, its words, the line, and all text that is left, in the buffer and in the file
  abbrev pub view : Read → Rc × List Bytes × ℕ × Bytes
  view r = (r.rc, r.args, r.conf_file.line, r.conf_file.unread ++ drop r.conf_file.offset content)

  -- the reference: no buffer, and the end of the file behind the text
  abbrev pub whole_of : Scan → Rc × List Bytes × ℕ × Bytes
  whole_of (exhausted s) = (end_of_file s, s.args, s.line, [])
  whole_of (returned rc s rest) = (rc, s.args, s.line, rest)

  abbrev pub whole : Scanner → Bytes → Rc × List Bytes × ℕ × Bytes
  whole s text = whole_of (scan memory s text)

  -- the scanner comes to hold as much text as the buffer has room for
  abbrev pub TooLong : Scanner → Bytes → Type 0
  TooLong s text =
      (xs ys : Bytes) × (s' : Scanner) × (text ≡ xs ++ ys)
      × (scan memory s xs ≡ exhausted s')
      × (length s'.token ≡ conf_buffer)

  -- what a call makes of a text
  abbrev pub Reads : Scanner → Bytes → Option Read → Type 0
  Reads s text result =
      (r : Read) × (result ≡ some r)
      × ((view r ≡ whole s text) ⊎ ((r.rc ≡ error) × TooLong s text))
      × (length r.conf_file.unread ≤ conf_buffer)

  Reads-more :
      (s s' : Scanner) (unread text : Bytes) {result : Option Read}
      → scan memory s unread ≡ exhausted s'
      → Reads s' text result
      → Reads s (unread ++ text) result
  unfolding resume
  Reads-more s s' unread text e (r, f, how, room) =
      let go : scan memory s (unread ++ text) ≡ scan memory s' text =
        scan-append memory s unread text ∙ ap (λ z. resume memory z text) e in
      (
        r,
        f,
        elim how [
          | inl same ↦ inl (same ∙ sym (ap whole_of go))
          | inr (bad, (xs, ys, t, split, used, full)) ↦ inr (
            bad,
            (
              unread ++ xs,
              ys,
              t,
              ap (λ z. unread ++ z) split ∙ sym (append_assoc unread xs ys),
              scan-append memory s unread xs ∙ ap (λ z. resume memory z xs) e ∙ used,
              full,
            ),
          )
        ],
        room,
      )

  module _ (is : IsFile file content) where
    -- what follows an exhausted scan
    abbrev continue : ℕ → Scanner → ℕ → Refill → Option Read
    continue fuel t offset (gives_up rc line) = some (record {
      rc = rc;
      args = t.args;
      conf_file = record { unread = []; offset = offset; line = line };
    })
    continue fuel t offset (loaded bytes) =
        read_loop file memory fuel t bytes (offset + length bytes)

    read_loop-exhausted :
        (fuel : ℕ) (s t : Scanner) (unread : Bytes) (offset : ℕ)
        → scan memory s unread ≡ exhausted t
        → read_loop file memory (suc fuel) s unread offset
          ≡ continue fuel t offset (refill file t offset)
    unfolding read_loop
    read_loop-exhausted fuel s t unread offset e = rw (read_loop, e)

    after_refill :
        (fuel : ℕ) (t : Scanner) (offset : ℕ)
        → length t.token ≤ conf_buffer
        → ((bytes : Bytes)
            → offset < length content
            → 1 ≤ length bytes
            → length t.token + length bytes ≤ conf_buffer
            → Reads t
                (bytes ++ drop (offset + length bytes) content)
                (read_loop file memory fuel t bytes (offset + length bytes)))
        → Reads t (drop offset content) (continue fuel t offset (refill file t offset))
    after_refill fuel t offset held next = elim (Bool-cases (leb file.size offset)) [
      | inl end_ ↦
          let past : length content ≤ offset = ground (arith, is.full) in
          let nothing = drop_all offset content past in
          rw (refill_end file t offset (ground arith), nothing)
            (
              _,
              refl,
              inl (
                  ap (λ z. (end_of_file t, t.args, t.line, z)) nothing
                  ∙ sym (ap whole_of (scan-nil memory t))),
              omega arith,
            )
      | inr more_ ↦
          let before_ : offset < length content = ground (arith, is.full) in
          elim (Bool-cases (length t.token == conf_buffer)) [
            | inl full ↦ rw (refill_full file t offset (ground arith) (ground arith)) (
              _,
              refl,
              inr (refl, ([], drop offset content, t, refl, scan-nil memory t, ground arith)),
              omega arith,
            )
            | inr room ↦
                let size = min (length content - offset) (conf_buffer - length t.token) in
                let bytes = take size (drop offset content) in
                let n : length bytes ≡ size =
                  length-take_all size (drop offset content)
                    (omega (arith, length-drop offset content)) in
                let got : file.read_file (min (file.size - offset) (conf_buffer - length t.token))
                      offset
                    ≡ some bytes =
                  ap (λ z. file.read_file (min (z - offset) (conf_buffer - length t.token)) offset)
                    is.full
                  ∙ is.bytes size offset in
                let load : refill file t offset ≡ loaded bytes =
                  refill_loaded file t offset bytes (ground arith) (ground arith) got
                    (omega (arith, n, is.full)) in
                let split : bytes ++ drop (offset + length bytes) content ≡ drop offset content =
                  ap (λ z. bytes ++ drop (offset + z) content) n ∙ take-drop offset size content in
                subst (λ z. Reads t z (continue fuel t offset (refill file t offset))) split
                  (subst
                    (λ z.
                      Reads t (bytes ++ drop (offset + length bytes) content)
                        (continue fuel t offset z))
                    (sym load) (next bytes before_ (ground (arith, n)) (omega (arith, n))))
          ]
    ]

    read_loop-returned :
        (fuel : ℕ) (s t : Scanner) (unread rest : Bytes) (offset : ℕ) (rc : Rc)
        → length s.token + length unread ≤ conf_buffer
        → scan memory s unread ≡ returned rc t rest
        → Reads s (unread ++ drop offset content) (read_loop file memory (suc fuel) s unread offset)
    unfolding read_loop resume
    read_loop-returned fuel s t unread rest offset rc room e = (
      record {
        rc = rc;
        args = t.args;
        conf_file = record { unread = rest; offset = offset; line = t.line };
      },
      rw (read_loop, e),
      inl (
          sym (
            ap whole_of (
              scan-append memory s unread (drop offset content)
              ∙ ap (λ z. resume memory z (drop offset content)) e))),
      omega (arith, scan_rest memory s t unread rest e),
    )

    -- one round; `next` is what the rounds behind it do
    round-Reads :
        (fuel : ℕ) (s : Scanner) (unread : Bytes) (offset : ℕ)
        → length s.token + length unread ≤ conf_buffer
        → ((t : Scanner) (bytes : Bytes)
            → offset < length content
            → 1 ≤ length bytes
            → length t.token + length bytes ≤ conf_buffer
            → Reads t
                (bytes ++ drop (offset + length bytes) content)
                (read_loop file memory fuel t bytes (offset + length bytes)))
        → Reads s (unread ++ drop offset content) (read_loop file memory (suc fuel) s unread offset)
    round-Reads fuel s unread offset room next = elim (Scan-cases (scan memory s unread)) [
      | inr (rc, t, rest, e) ↦ read_loop-returned fuel s t unread rest offset rc room e
      | inl (t, e) ↦
          let held : length t.token ≤ conf_buffer = omega (arith, scan_room memory s t unread e) in
          Reads-more s t unread (drop offset content) e (
            subst (λ z. Reads t (drop offset content) z)
              (sym (read_loop-exhausted fuel s t unread offset e))
              (after_refill fuel t offset held (next t)))
    ]

    read_loop-Reads :
        (fuel : ℕ) (s : Scanner) (unread : Bytes) (offset : ℕ)
        → length content ≤ fuel + offset
        → length s.token + length unread ≤ conf_buffer
        → Reads s (unread ++ drop offset content) (read_loop file memory (suc fuel) s unread offset)
    read_loop-Reads zero s unread offset enough room =
        round-Reads zero s unread offset room λ t bytes h l k. absurd (omega arith)
    read_loop-Reads (suc fuel) s unread offset enough room =
        round-Reads (suc fuel) s unread offset room
          λ t bytes h l k. read_loop-Reads fuel t bytes (offset + length bytes) (omega arith) k

    pub read_token-Reads :
        (f : ConfFile)
        → length f.unread ≤ conf_buffer
        → Reads (fresh f.line) (f.unread ++ drop f.offset content) (read_token file memory f)
    unfolding read_token
    read_token-Reads f room =
        read_loop-Reads file.size (fresh f.line) f.unread f.offset (omega (arith, is.full))
          (omega arith)
