-- ===== src/Timerd/Stuck.antt =====
-- A timer that triggers when its event's data has another footprint.
use nginx_toolkit_module.Base.{ℕ, ◌≡◌, refl, ◌∙◌, true, false, some, List, [], ◌∷◌, ◌==◌, arith}
use nginx_toolkit_module.Map.UintMap.{KeyMap}
use nginx_toolkit_module.NodePool.{content_at}
use nginx_toolkit_module.Timerd.{
  TimerdNode, Timers, State, World, ok, wrap_node, wrap, logged, trigger_not_owner, Call, client,
  trigger, add, call, step, steps_run, add_timer_debug, add_started, add_again, add_not_owner,
}

module _ (m : KeyMap ℕ) (timers : Timers) where
  -- Where the timer on record of an event triggers and the event's data has another footprint by
  -- then, the handler is not called and the record stays. The new owner's ngx_add_timer_debug with
  -- the same place of the footprint is refused then: no timer is set, no flag of the event either.
  pub trigger-add_stuck :
      (ev n timer file line : ℕ) (calls : ℕ → List Call) (w : World m timers) (s : State m timers)
      (x : TimerdNode)
      → timers.timer_set w.heap n ≡ true
      → m.find s.map ev ≡ some n
      → content_at s.nodes n ≡ some x
      → x.uev ≡ some ev
      → (w.users.footprint_at ev x.fpoff == x.footprint) ≡ false
      → (w' : World m timers) × (steps_run m timers
            (trigger n calls ∷ client (add ev timer x.fpoff file line) ∷ [])
            w
            (some s)
          ≡ ok w' (some s))
        × (w'.users ≡ w.users)
        × (w'.heap ≡ timers.expired n w.heap)
        × (timers.timer_set w'.heap n ≡ false)
  unfolding steps_run step wrap wrap_node call add_timer_debug add_started add_again
  trigger-add_stuck ev n timer file line calls w s x on e c owner other =
      let other' : (x.footprint == w.users.footprint_at ev x.fpoff) ≡ false = ground arith in
      let w1 : World m timers =
        logged m timers (trigger_not_owner x.file x.line)
          (record w { heap = timers.expired n w.heap }) in
      (
        logged m timers (add_not_owner x.file x.line file line) w1,
        rw (
          steps_run, step, on, wrap, c, owner, wrap_node, other, call, add_timer_debug, add_started,
          e, add_again, c, other',
        ),
        refl,
        refl,
        timers.timer_set-expired n n w.heap ∙ ground arith,
      )
