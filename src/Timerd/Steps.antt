-- ===== src/Timerd/Steps.antt =====
-- Every sequence of clients' calls and of nginx's triggers.
use nginx_toolkit_module.Base.{
  ℕ, ◌≡◌, refl, subst, fun_ext, sym, ◌∙◌, inl, inr, true, false, none, some, List, [], ◌∷◌, ◌==◌,
  Bool-cases,
}
use nginx_toolkit_module.Map.UintMap.{KeyMap}
use nginx_toolkit_module.NodePool.{no_nodes}
use nginx_toolkit_module.NodePool.Tracked.{Tracked-init, delete-Held}
use nginx_toolkit_module.Timerd.{
  Users, Timers, State, World, Run, ok, wrap_node, wrap, logged, trigger_not_owner, Call, Step,
  client, trigger, calls_run, step, steps_run, add_timer_debug, timerd_init, put,
}
use nginx_toolkit_module.Timerd.Record.{key_of, IsValid, Ends, view, added}
use nginx_toolkit_module.Timerd.Add.{add_timer_debug-Ends}
use nginx_toolkit_module.Timerd.Triggers.{
  call-Kept, calls_run-Kept, expired-IsValid, handled-IsValid, put_back-Kept,
}

module _ (m : KeyMap ℕ) (timers : Timers) where
  -- the run comes to an end with a valid record
  pub Good : Run m timers → Type 0
  Good r =
      (w : World m timers) × (s : State m timers) × (xs : List ℕ) × (r ≡ ok w (some s))
      × IsValid m timers w.heap s xs

  trigger-Good :
      (n : ℕ) (calls : ℕ → List Call) (w : World m timers) (s : State m timers) (xs : List ℕ)
      → IsValid m timers w.heap s xs
      → timers.timer_set w.heap n ≡ true
      → Good (
          wrap m timers
            (λ ev. calls_run m timers (calls ev))
            n
            (record w { heap = timers.expired n w.heap })
            (some s))
  unfolding Good wrap wrap_node
  trigger-Good n calls w s xs v on =
      let (k, e) = v.armed n on in
      let (_, (x, c, d)) = v.tracked.used k n e in
      let handler = λ (ev : ℕ). calls_run m timers (calls ev) in
      let w1 : World m timers = record w { heap = timers.expired n w.heap } in
      let to_node : wrap m timers handler n w1 (some s)
          ≡ wrap_node m timers handler n w1 s x (some k) =
        rw (wrap, c, d) in
      elim (Bool-cases (w.users.footprint_at k x.fpoff == x.footprint)) [
        | inl own ↦
            let users : Users = record w.users {
              timer_set = put w.users.timer_set k false;
              timedout = put w.users.timedout k true;
            } in
            let w2 : World m timers = record w1 { users = users } in
            let s2 : State m timers = record s { map = m.delete s.map k } in
            let run =
              calls_run-Kept m timers (calls k) w2 s2 xs
                (handled-IsValid m timers k n w.heap s xs v e) in
            let (w', s', xs', f, v') =
              put_back-Kept m timers n s2 xs _
                (delete-Held m key_of s.map s.nodes xs k n v.tracked e) run in
            (w', s', xs', to_node ∙ rw (wrap_node, own) f, v')
        | inr other ↦ (
          logged m timers (trigger_not_owner x.file x.line) w1,
          s,
          xs,
          to_node ∙ rw (wrap_node, other),
          expired-IsValid m timers n w.heap s xs v,
        )
      ]

  step-Good :
      (c : Step) (w : World m timers) (s : State m timers) (xs : List ℕ)
      → IsValid m timers w.heap s xs
      → Good (step m timers c w (some s))
  unfolding step Good
  step-Good (client c) w s xs v =
      let k = call-Kept m timers c w s xs v in (k.world, k.state, k.free, k.ends, k.valid)
  step-Good (trigger n calls) w s xs v = elim (Bool-cases (timers.timer_set w.heap n)) [
    | inl on ↦ subst Good (sym (rw (step, on))) (trigger-Good n calls w s xs v on)
    | inr off ↦ (w, s, xs, rw (step, off), v)
  ]

  -- From a valid record, where there is memory, every sequence of timers added, timers deleted,
  -- writes to the clients' memory and triggers of running timers, whose handlers make calls of
  -- their own, follows no NULL pointer and ends with a valid record: the nodes on record are not
  -- free, each has one event, and only nodes on record have a running timer.
  pub steps_run-Good :
      (cs : List Step) (w : World m timers) (s : State m timers) (xs : List ℕ)
      → IsValid m timers w.heap s xs
      → Good (steps_run m timers cs w (some s))
  unfolding steps_run Good
  steps_run-Good [] w s xs v = (w, s, xs, refl, v)
  steps_run-Good (c ∷ cs) w s xs v =
      let (w1, s1, xs1, e, v1) = step-Good c w s xs v in
      let (w2, s2, xs2, f, v2) = steps_run-Good cs w1 s1 xs1 v1 in
      (w2, s2, xs2, rw (steps_run, e) f, v2)

  -- The first call of ngx_add_timer_debug, where nginx gives the module its pool and no node's
  -- timer runs, ends with a valid record that has the timer of this event alone.
  pub add_timer_debug_first :
      (ev timer fpoff file line : ℕ) (w : World m timers)
      → ((n : ℕ) → timers.timer_set w.heap n ≡ false)
      → Ends m timers
          (record { map = m.init; nodes = no_nodes })
          []
          (added (λ j. none) ev (w.users.footprint_at ev fpoff))
          (add_timer_debug m timers true true ev timer fpoff file line w none)
  unfolding add_timer_debug timerd_init
  add_timer_debug_first ev timer fpoff file line w idle =
      let s : State m timers = record { map = m.init; nodes = no_nodes } in
      let v : IsValid m timers w.heap s [] = record {
        tracked = Tracked-init m key_of;
        armed = λ n on. absurd (cc (idle n));
      } in
      let k = add_timer_debug-Ends m timers true ev timer fpoff file line w s [] v in
      let fp = w.users.footprint_at ev fpoff in
      let empty : view m timers w.heap s ≡ (λ j. none) = fun_ext λ j. rw (view, m.find-init j) in
      subst
        (λ z.
          Ends m timers s [] (added z ev fp)
            (add_timer_debug m timers true true ev timer fpoff file line w none))
        empty k
