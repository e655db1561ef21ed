-- ===== src/EventTimer/Tests.antt =====
-- Two timers.
use nginx_toolkit_module.Base.{
  ℕ, ◌≡◌, refl, subst, Bool, true, false, Option, none, some, zero, suc, [], ◌∷◌, arith, get_elem?,
}
use nginx_toolkit_module.EventTimer.{
  Pointer, link, user, Ctx, Conf, EventTimers, ok, create_conf, process_init, add_timer,
  event_handler, init_loop, next_of, slot,
}
use nginx_toolkit_module.FreeList.{has}
use nginx_toolkit_module.EventTimer.Valid.{IsValid}
use nginx_toolkit_module.EventTimer.Init.{process_init-IsValid}
use nginx_toolkit_module.EventTimer.Calls.{Started, add_timer-Started, event_handler-IsValid}

abbrev events : EventTimers
events = record {
  add = λ e tv. record e { timer_set = true };
  del = λ e. record e { timer_set = false };
  timer_set-add = λ e tv. refl;
  timer_set-del = λ e. refl;
}

abbrev noise : Ctx
noise = record {
  timerid = 99;
  event = record { timer_set = true; log = true; data_of = none };
  handler = some 1;
  value = user 5;
}

abbrev two : Conf
two = record create_conf { timer_n = 2 }

abbrev ready : Conf
ready = record {
  timer_n = 2;
  timer_ctx = slot 0 (some 1) noise ∷ slot 1 none noise ∷ [];
  free_timers = some 0;
  free_timer_n = 2;
}

process_init-IsValid_example :
    ((process_init (some (noise ∷ noise ∷ [])) two).0 ≡ true)
    × IsValid (process_init (some (noise ∷ noise ∷ [])) two).1 (0 ∷ 1 ∷ [])
process_init-IsValid_example = process_init-IsValid two (noise ∷ noise ∷ []) (omega arith) refl

process_init-ready : process_init (some (noise ∷ noise ∷ [])) two ≡ (true, ready)
unfolding process_init init_loop
process_init-ready = refl

ready-IsValid : IsValid ready (0 ∷ 1 ∷ [])
ready-IsValid =
    subst (λ (r : Bool × Conf). IsValid r.1 (0 ∷ 1 ∷ [])) process_init-ready
      (process_init-IsValid two (noise ∷ noise ∷ []) (omega arith) refl).1

-- the second timer is in use and pending
abbrev timer : ℕ → Option ℕ → Bool → Pointer → Ctx
timer i h on value = record {
  timerid = i;
  event = record { timer_set = on; log = true; data_of = some i };
  handler = h;
  value = value;
}

abbrev busy : Bool → Conf
busy on = record {
  timer_n = 2;
  timer_ctx = timer 0 none false (link none) ∷ timer 1 (some 7) on (user 4) ∷ [];
  free_timers = some 0;
  free_timer_n = 1;
}

busy-ids : (on : Bool) (i : ℕ) (x : Ctx) → get_elem? (busy on).timer_ctx i ≡ some x → x.timerid ≡ i
busy-ids on zero x e = ground arith
busy-ids on (suc zero) x e = ground arith
busy-ids on (suc (suc i)) x e = absurd (ground arith)

busy-idle :
    (on : Bool) (i : ℕ) (x : Ctx)
    → has i (0 ∷ []) ≡ true
    → get_elem? (busy on).timer_ctx i ≡ some x
    → x.event.timer_set ≡ false
busy-idle on zero x k e = ground arith
busy-idle on (suc i) x k e = absurd (ground arith)

busy-IsValid : (on : Bool) → IsValid (busy on) (0 ∷ [])
unfolding next_of
busy-IsValid on = record {
  size = refl;
  chain = (refl, (none, refl, refl));
  distinct = (refl, tt);
  count = refl;
  ids = busy-ids on;
  idle = busy-idle on;
}

add_timer-Started_example :
    (c' : Conf) × (add_timer events 10 (some 7) 3 ready ≡ ok (some 0) c')
    × IsValid c' (1 ∷ [])
    × Started events ready 0 7 3 c'
add_timer-Started_example = add_timer-Started events ready 10 7 3 0 (1 ∷ []) ready-IsValid

event_handler-IsValid_example :
    (c'' : Conf) × (event_handler (λ h v c. ok tt c) 1 (busy false) ≡ ok tt c'')
    × (c''.free_timers ≡ some 1)
    × IsValid c'' (1 ∷ 0 ∷ [])
event_handler-IsValid_example =
    event_handler-IsValid (λ h v c. ok tt c) 1 7 (timer 1 (some 7) false (user 4))
      (timer 1 (some 7) false (user 4)) (busy false) (busy false) (0 ∷ []) refl refl refl
      (busy-IsValid false) refl refl refl
