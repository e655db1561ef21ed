-- ===== src/EventTimer/Calls.antt =====
-- What each call of the timer module does, given a free list in order.
use nginx_toolkit_module.Base.{
  ℕ, ◌≡◌, ◌≢◌, refl, ap, ◌∙◌, ◌⊎◌, inl, inr, true, false, Option, none, some, List, [], ◌∷◌, arith,
  get_elem?, set, get_elem?-set_self, get_elem?-set_ne, Bool-cases, if_true, if_false,
}
use nginx_toolkit_module.FreeList.{has}
use nginx_toolkit_module.EventTimer.{
  Pointer, user, Ctx, Conf, EventTimers, Run, ok, get_timer, free_timer, started, add_timer,
  del_timer, event_handler, start, and_free,
}
use nginx_toolkit_module.EventTimer.Valid.{
  IsValid, free_timer-IsValid, get_timer-IsValid, write_busy, lt-length_of_get,
}

module _ (ev : EventTimers) (c : Conf) where
  -- With no free timer, and with a NULL handler, ngx_event_timer_add_timer returns NGX_ERROR and
  -- changes nothing.
  pub add_timer_refused :
      (tv : ℕ) (h : Option ℕ) (data_ : ℕ) (xs : List ℕ)
      → IsValid c xs
      → (xs ≡ []) ⊎ (h ≡ none)
      → add_timer ev tv h data_ c ≡ ok none c
  unfolding add_timer
  add_timer_refused tv none data_ xs v r = refl
  add_timer_refused tv (some h) data_ [] v r = rw (add_timer, get_timer, v.count)
  add_timer_refused tv (some h) data_ (x ∷ xs) v r = absurd (ground arith)

  -- what starting a timer leaves: the timer `i` holds the request, and no other has changed
  abbrev pub Started : ℕ → ℕ → ℕ → Conf → Type 0
  Started i h data_ c' =
      ((x : Ctx) × (get_elem? c'.timer_ctx i ≡ some x)
        × (x.event.timer_set ≡ true)
        × (x.handler ≡ some h)
        × (x.value ≡ user data_))
      × ((j : ℕ) → i ≢ j → get_elem? c'.timer_ctx j ≡ get_elem? c.timer_ctx j)

  -- With a handler and a free timer, ngx_event_timer_add_timer takes the first timer of the free
  -- list, returns its index, sets it pending with the handler and the data given, leaves the other
  -- timers alone and keeps the free list in order.
  pub add_timer-Started :
      (tv h data_ i : ℕ) (xs : List ℕ)
      → IsValid c (i ∷ xs)
      → (c' : Conf) × (add_timer ev tv (some h) data_ c ≡ ok (some i) c')
        × IsValid c' xs
        × Started i h data_ c'
  unfolding add_timer start
  add_timer-Started tv h data_ i xs v =
      let (c1, x, got, v1, same, g) = get_timer-IsValid c i xs v in
      let g1 : get_elem? c1.timer_ctx i ≡ some x = rw same g in
      let y : Ctx = started ev tv h data_ i x in
      let lt1 = lt-length_of_get c1.timer_ctx i g1 in
      (
        record c1 { timer_ctx = set c1.timer_ctx i y },
        rw (got, start, g1)
            (ap (λ z. ok (some z) (record c1 { timer_ctx = set c1.timer_ctx i y })) (v.ids i x g)),
        write_busy c1 xs i y v1 lt1 v.distinct.0 (v.ids i x g),
        (
          (y, get_elem?-set_self c1.timer_ctx i y lt1, ev.timer_set-add _ tv, refl, refl),
          λ j n. get_elem?-set_ne c1.timer_ctx i j y n ∙ ap (λ t. get_elem? t j) same,
        ),
      )

  -- Deleting a pending timer stops it and puts it in front of the free list; the other timers stay
  -- as they were.
  pub del_timer_pending :
      (i : ℕ) (x : Ctx) (xs : List ℕ)
      → IsValid c xs
      → get_elem? c.timer_ctx i ≡ some x
      → x.event.timer_set ≡ true
      → (c' : Conf) × (del_timer ev i c ≡ ok tt c') × IsValid c' (i ∷ xs)
  unfolding del_timer
  del_timer_pending i x xs v g pending =
      let out : has i xs ≡ false = elim (Bool-cases (has i xs)) [
        | inl k ↦ absurd (cc (v.idle i x k g))
        | inr k ↦ k
      ] in
      let y : Ctx = record x { event = ev.del x.event } in
      let lt = lt-length_of_get c.timer_ctx i g in
      let c1 : Conf = record c { timer_ctx = set c.timer_ctx i y } in
      let v1 = write_busy c xs i y v lt out (v.ids i x g) in
      let (c2, e, v2, _) =
        free_timer-IsValid c1 xs i y v1 (get_elem?-set_self c.timer_ctx i y lt) out
          (ev.timer_set-del x.event) in
      (c2, rw (del_timer, g) (if_true (free_timer i c1) (ok tt c) pending ∙ e), v2)

  -- Deleting a timer that is not pending, one that was deleted already or has fired among them,
  -- changes nothing.
  pub del_timer_idle :
      (i : ℕ) (x : Ctx)
      → get_elem? c.timer_ctx i ≡ some x
      → x.event.timer_set ≡ false
      → del_timer ev i c ≡ ok tt c
  unfolding del_timer
  del_timer_idle i x g off = rw (del_timer, g) (if_false _ (ok tt c) off)

-- Where the user's handler leaves the free list in order, with the expired timer still in use
-- and not pending, the expiry of a timer runs the handler once on the data that the timer was
-- given and then puts the timer in front of the free list.
pub event_handler-IsValid :
    (call : ℕ → Pointer → Conf → Run (Unit {0})) (i h : ℕ) (x x' : Ctx) (c c' : Conf) (xs : List ℕ)
    → get_elem? c.timer_ctx i ≡ some x
    → x.handler ≡ some h
    → call h x.value c ≡ ok tt c'
    → IsValid c' xs
    → has i xs ≡ false
    → get_elem? c'.timer_ctx i ≡ some x'
    → x'.event.timer_set ≡ false
    → (c'' : Conf) × (event_handler call i c ≡ ok tt c'')
      × (c''.free_timers ≡ some i)
      × IsValid c'' (i ∷ xs)
unfolding event_handler and_free
event_handler-IsValid call i h x x' c c' xs g hh done v out g' off =
    let (c2, e, v2, f) = free_timer-IsValid c' xs i x' v g' out off in
    (c2, rw (event_handler, g, hh, done) e, f, v2)
