-- ===== src/DynamicConf/Check/Timer.antt =====
-- What a check of the file and the start of a process leave.
use nginx_toolkit_module.Base.{
  ℕ, ◌≡◌, refl, sym, ap, ◌∙◌, subst, ◌⊎◌, inl, inr, Bool, true, false, Option, none, some, List, [],
  ◌∷◌, Bool-cases, Option-cases, ◌≢◌, if_false, arith,
}
use nginx_toolkit_module.Text.{Bytes}
use nginx_toolkit_module.Port.{bytes_eq}
use nginx_toolkit_module.Url.{is_empty}
use nginx_toolkit_module.Poold.{Pools}
use nginx_toolkit_module.DynamicConf.Token.{ok, error}
use nginx_toolkit_module.DynamicConf.Reader.{File}
use nginx_toolkit_module.DynamicConf.Load.{Dccf, Cycle, Loaded, loaded, stuck, load_conf}
use nginx_toolkit_module.DynamicConf.Load.Outcome.{Kept, Switched, Outcome, load_conf-Outcome}
use nginx_toolkit_module.DynamicConf.Load.Returns.{Readable, Loads, load_conf-Loads}
use nginx_toolkit_module.DynamicConf.Check.{
  Opened, close_file, add_timer, CheckResult, at_done, checked, check_opened, check_conf,
  process_init, started,
}

abbrev fd_of : Option Opened → Option ℕ
fd_of none = none
fd_of (some o) = some o.fd

abbrev md5_of : Option Opened → Option Bytes
md5_of none = none
md5_of (some o) = o.md5

module _ {C U : Type 0} (pools : Pools) (memory : List Bytes → Bool) (cycle : Cycle C U)
    (room : Bool) where
  -- a configuration as it was, or a new one for a file whose MD5 has changed
  abbrev pub Refreshed :
      Option Opened → Dccf C → pools.Heap → CheckResult pools memory cycle room → Type 0
  Refreshed opened d h r =
      Kept pools d h r.dccf r.heap
      ⊎ ((key : Bytes) × (d' : Dccf C) × (md5_of opened ≡ some key)
          × (bytes_eq d.md5key key ≡ false)
          × Switched pools d h d' r.heap
          × (r.dccf ≡ record d' { md5key = key }))

  -- the file is closed, and the timer of the next check is asked for
  abbrev pub Rearmed : Option Opened → Dccf C → CheckResult pools memory cycle room → Type 0
  Rearmed opened d r = r.calls ≡ close_file (fd_of opened) ∷ (add_timer d.refresh ∷ [])

  abbrev pub Checks :
      Option Opened → Dccf C → pools.Heap → Option (CheckResult pools memory cycle room) → Type 0
  Checks opened d h x =
      (r : CheckResult pools memory cycle room) × (x ≡ some r)
      × Rearmed opened d r
      × Refreshed opened d h r

  unchanged :
      (opened : Option Opened) (d : Dccf C) (h : pools.Heap) (u : U)
      → Checks opened d h (at_done pools memory cycle room (fd_of opened) d h u)
  unchanged opened d h u = (_, refl, refl, inl (record { same = refl; pools_same = λ q. refl }))

  rearmed :
      (opened : Option Opened) (d d' : Dccf C)
      → d'.refresh ≡ d.refresh
      → close_file (fd_of opened) ∷ (add_timer d'.refresh ∷ [])
        ≡ close_file (fd_of opened) ∷ (add_timer d.refresh ∷ [])
  rearmed opened d d' e = ap (λ z. close_file (fd_of opened) ∷ (add_timer z ∷ [])) e

  checked-Checks :
      (o : Opened) (key : Bytes) (d : Dccf C) (h : pools.Heap) (x : Loaded C U pools.Heap)
      → o.md5 ≡ some key
      → bytes_eq d.md5key key ≡ false
      → x ≢ stuck
      → Outcome pools d h x
      → Checks (some o) d h (checked pools memory cycle room o.fd key x)
  unfolding checked
  checked-Checks o key d h stuck m new runs out = absurd (runs refl)
  checked-Checks o key d h (loaded false d' h' u) m new runs out =
      (_, refl, rearmed (some o) d d' (ap (λ (z : Dccf C). z.refresh) out.same), inl out)
  checked-Checks o key d h (loaded true d' h' u) m new runs out =
      (_, refl, rearmed (some o) d d' out.settings.0, inr (key, d', m, new, out, refl))

  Loads-ne-stuck :
      (file : File) (content : Bytes) (x : Loaded C U pools.Heap)
      → Loads memory cycle file content pools x
      → x ≢ stuck
  Loads-ne-stuck file content x (fine, d, h, u, e) f = cc

  check_opened-Checks :
      (o : Opened) (content : Bytes) (d : Dccf C) (h : pools.Heap) (u : U)
      → Readable memory cycle o.file content
      → Checks (some o) d h (check_opened pools memory cycle room o d h u)
  unfolding check_opened
  check_opened-Checks o content d h u r =
      let x = load_conf pools memory cycle room o.file d h u in
      let here = check_opened pools memory cycle room o d h u in
      let kept = at_done pools memory cycle room (some o.fd) d h u in
      elim (Option-cases o.md5) [
        | inl e ↦
            let p : here ≡ kept = rw (check_opened, e) in
            subst (Checks (some o) d h) (sym p) (unchanged (some o) d h u)
        | inr (key, e) ↦ elim (Bool-cases (bytes_eq d.md5key key)) [
          | inl same ↦
              let p : here ≡ kept = rw (check_opened, e, same) in
              subst (Checks (some o) d h) (sym p) (unchanged (some o) d h u)
          | inr new ↦
              let p : here ≡ checked pools memory cycle room o.fd key x =
                rw (check_opened, e, new) in
              subst (Checks (some o) d h) (sym p) (
                checked-Checks o key d h x e new
                  (Loads-ne-stuck o.file content x
                    (load_conf-Loads memory cycle o.file content pools r room d h u))
                  (load_conf-Outcome pools memory cycle room o.file d h u))
        ]
      ]

  -- Unless nginx is exiting, and where the reads of an open file give the whole of it, which does not
  -- change meanwhile, no directive leaves more of it unread than it found, and the modules'
  -- functions neither create nor destroy pools, a check of the file comes to an end. Whether the
  -- file can be opened and parsed and its MD5 be read or not, it closes what ngx_open_file gave and
  -- calls ngx_event_timer_add_timer for the next check, a call whose result it ignores. The
  -- configuration and the set of live pools stay as they were, or the file's MD5 is another one, a
  -- new configuration is in use and that MD5 is kept.
  pub check_conf-Checks :
      (opened : Option Opened) (content : Bytes) (d : Dccf C) (h : pools.Heap) (u : U)
      → ((o : Opened) → opened ≡ some o → Readable memory cycle o.file content)
      → Checks opened d h (check_conf pools memory cycle room false opened d h u)
  unfolding check_conf
  check_conf-Checks none content d h u r = unchanged none d h u
  check_conf-Checks (some o) content d h u r = check_opened-Checks o content d h u (r o refl)

  started-calls :
      (fd : ℕ) (md5 : Option Bytes) (x : Loaded C U pools.Heap)
      (r : CheckResult pools memory cycle room)
      → started pools memory cycle room fd md5 x ≡ some r
      → ((r.answer ≡ ok) × (r.calls ≡ close_file (some fd) ∷ (add_timer r.dccf.refresh ∷ [])))
        ⊎ ((r.answer ≡ error) × (r.calls ≡ []))
  unfolding started
  started-calls fd md5 stuck r e = absurd (cc)
  started-calls fd md5 (loaded false d h u) r e = inr (ground arith, ground arith)
  started-calls fd none (loaded true d h u) r e = inr (ground arith, ground arith)
  started-calls fd (some key) (loaded true d h u) r e = inl (ground arith, ground arith)

  started-returns :
      (fd : ℕ) (md5 : Option Bytes) (x : Loaded C U pools.Heap)
      → x ≢ stuck
      → (r : CheckResult pools memory cycle room) × (started pools memory cycle room fd md5 x
          ≡ some r)
  unfolding started
  started-returns fd md5 stuck runs = absurd (runs refl)
  started-returns fd md5 (loaded false d h u) runs = (_, refl)
  started-returns fd none (loaded true d h u) runs = (_, refl)
  started-returns fd (some key) (loaded true d h u) runs = (_, refl)

  -- Where a file is configured and can be opened, the reads give the whole of it, it does not change
  -- meanwhile and no directive leaves more of it unread than it found, the start of a process comes
  -- to an end. It either returns NGX_OK, and has closed the file and called
  -- ngx_event_timer_add_timer for the first check, a call whose result it ignores, or it returns
  -- NGX_ERROR, and then has done neither: the file stays open.
  pub process_init-calls :
      (o : Opened) (content : Bytes) (d : Dccf C) (h : pools.Heap) (u : U)
      → Readable memory cycle o.file content
      → is_empty d.file_name ≡ false
      → (r : CheckResult pools memory cycle room) × (process_init pools memory cycle room
            (some o)
            d
            h
            u
          ≡ some r)
        × (((r.answer ≡ ok) × (r.calls ≡ close_file (some o.fd) ∷ (add_timer r.dccf.refresh ∷ [])))
            ⊎ ((r.answer ≡ error) × (r.calls ≡ [])))
  unfolding process_init
  process_init-calls o content d h u readable named =
      let x = load_conf pools memory cycle room o.file d h u in
      let (r, e) = started-returns o.fd o.md5 x (
        Loads-ne-stuck o.file content x
          (load_conf-Loads memory cycle o.file content pools readable room d h u)) in
      (
        r,
        if_false (some _) (started pools memory cycle room o.fd o.md5 x) named ∙ e,
        started-calls o.fd o.md5 x r e,
      )
