-- ===== src/DynamicConf/Reader/Rounds.antt =====
-- What a refill of the buffer does, and a file that does not change.
use nginx_toolkit_module.Base.{
  ℕ, ◌-◌, ◌≤◌, ◌<◌, min, ◌≡◌, refl, ◌∙◌, ◌⊎◌, inl, inr, true, false, some, arith, ◌==◌, leb, length,
  take, drop, if_true, if_false,
}
use nginx_toolkit_module.Text.{Bytes}
use nginx_toolkit_module.DynamicConf.Token.{Rc, error, Scanner, Scan, exhausted, returned}
use nginx_toolkit_module.DynamicConf.Reader.{
  File, conf_buffer, gives_up, loaded, end_of_file, refill,
}

-- a file whose bytes do not change while it is read
pub record IsFile (file : File) (content : Bytes) : Type 0 where
  pub full : file.size ≡ length content
  pub bytes : (n o : ℕ) → file.read_file n o ≡ some (take n (drop o content))

pub Scan-cases :
    (x : Scan)
    → ((s : Scanner) × (x ≡ exhausted s))
      ⊎ ((rc : Rc) × (s : Scanner) × (rest : Bytes) × (x ≡ returned rc s rest))
Scan-cases (exhausted s) = inl (s, refl)
Scan-cases (returned rc s rest) = inr (rc, s, rest, refl)

module _ (file : File) (s : Scanner) (offset : ℕ) where
  pub refill_end : file.size ≤ offset → refill file s offset ≡ gives_up (end_of_file s) s.line
  unfolding refill
  refill_end h = ground arith

  pub refill_full :
      offset < file.size
      → length s.token ≡ conf_buffer
      → refill file s offset ≡ gives_up error s.start_line
  unfolding refill
  refill_full h k =
      let a : leb file.size offset ≡ false = ground arith in
      let b : (length s.token == conf_buffer) ≡ true = ground arith in
      if_false _ _ a ∙ if_true _ _ b

  pub refill_loaded :
      (bytes : Bytes)
      → offset < file.size
      → length s.token < conf_buffer
      → file.read_file (min (file.size - offset) (conf_buffer - length s.token)) offset ≡ some bytes
      → length bytes ≡ min (file.size - offset) (conf_buffer - length s.token)
      → refill file s offset ≡ loaded bytes
  unfolding refill
  refill_loaded bytes h k e n =
      let size = min (file.size - offset) (conf_buffer - length s.token) in
      let a : leb file.size offset ≡ false = ground arith in
      let b : (length s.token == conf_buffer) ≡ false = ground arith in
      let c : (length bytes == size) ≡ true = ground arith in
      if_false _ _ a ∙ if_false _ _ b ∙ rw e (if_true _ _ c)
