-- ===== src/Timerd/Delete.antt =====
-- ngx_del_timer_debug, on a valid record.
use nginx_toolkit_module.Base.{
  ℕ, ◌≡◌, ◌≢◌, subst, sym, ap, ◌∙◌, inl, inr, true, false, ◌&&◌, not, none, some, List, ◌∷◌, ◌==◌,
  arith, Bool-cases, Option-cases, if_true, if_false,
}
use nginx_toolkit_module.Map.UintMap.{KeyMap}
use nginx_toolkit_module.NodePool.{content_at}
use nginx_toolkit_module.NodePool.Tracked.{one_key, put_node-Tracked}
use nginx_toolkit_module.Timerd.{
  TimerdNode, Timers, State, World, stop_timer, stop_posted, del_owned, del_timer_debug,
  delete_twice, delete_not_owner, logged,
}
use nginx_toolkit_module.Timerd.Record.{
  key_of, may_delete, deleted, view, IsValid, Ends, view-some, view-none, view-same, refused,
  deleted_self, deleted_other, deleted_refused,
}

module _ (m : KeyMap ℕ) (timers : Timers) where
  set-stop_timer :
      (ev n j : ℕ) (w : World m timers)
      → timers.timer_set (stop_timer m timers ev n w).heap j
        ≡ (not (j == n) && timers.timer_set w.heap j)
  unfolding stop_timer
  set-stop_timer ev n j w = elim (Bool-cases (timers.timer_set w.heap n)) [
    | inl e ↦ rw (stop_timer, e) (timers.timer_set-del_timer n j w.heap)
    | inr e ↦
        rw (stop_timer, e)
          (elim (Bool-cases (j == n)) [
            | inl q ↦
                let same : j ≡ n = ground arith in ap (timers.timer_set w.heap) same ∙ e ∙ rw (q)
            | inr q ↦ rw (q)
          ])
  ]

  set-stop_posted :
      (n j : ℕ) (w : World m timers)
      → timers.timer_set (stop_posted m timers n w).heap j ≡ timers.timer_set w.heap j
  unfolding stop_posted
  set-stop_posted n j w = elim (Bool-cases (timers.posted w.heap n)) [
    | inl e ↦ rw (stop_posted, e) (timers.timer_set-delete_posted_event n j w.heap)
    | inr e ↦ rw (stop_posted, e)
  ]

  -- the node's timer does not run, others do as before
  set-stopped :
      (ev n j : ℕ) (w : World m timers)
      → timers.timer_set (stop_posted m timers n (stop_timer m timers ev n w)).heap j
        ≡ (not (j == n) && timers.timer_set w.heap j)
  set-stopped ev n j w = set-stop_posted n j (stop_timer m timers ev n w) ∙ set-stop_timer ev n j w

  owned-Ends :
      (ev fp n : ℕ) (w : World m timers) (s : State m timers) (xs : List ℕ) (x : TimerdNode)
      → IsValid m timers w.heap s xs
      → m.find s.map ev ≡ some n
      → content_at s.nodes n ≡ some x
      → (x.footprint == fp) ≡ true
      → Ends m timers s xs (deleted (view m timers w.heap s) ev fp) (del_owned m timers ev n w s)
  unfolding del_owned
  owned-Ends ev fp n w s xs x v e c own =
      let at = view-some m timers w.heap s ev n x e c in
      let may : may_delete (view m timers w.heap s ev) fp ≡ true =
        ap (λ z. may_delete z fp) at ∙ own in
      let (ns, p, t, contents, keep) =
        put_node-Tracked m key_of s.map s.nodes xs ev n v.tracked e in
      let s' : State m timers = record { map = m.delete s.map ev; nodes = ns } in
      let w' = stop_posted m timers n (stop_timer m timers ev n w) in
      let off = λ (j : ℕ) (q : (j == ev) ≡ false).
        m.find-delete s.map ev j ∙ if_false none (m.find s.map j) q in
      record {
        world = w';
        state = s';
        free = n ∷ xs;
        ends = rw (del_owned, p);
        valid = record {
          tracked = t;
          armed = λ a on.
              let both = sym (set-stopped ev n a w) ∙ on in
              let q : (a == n) ≡ false = ground arith in
              let (k, g) = v.armed a (ground arith) in
              let apart : k ≢ ev = λ z.
                let same : some a ≡ some n = sym g ∙ ap (m.find s.map) z ∙ e in
                let one : a ≡ n = cc same in absurd (ground arith) in
              (k, off k (ground arith) ∙ g);
        };
        seen = λ j. elim (Bool-cases (j == ev)) [
          | inl q ↦
              view-none m timers w'.heap s' j
                (m.find-delete s.map ev j ∙ if_true none (m.find s.map j) q)
              ∙ sym (deleted_self (view m timers w.heap s) ev fp j q may)
          | inr q ↦
              view-same m timers w.heap w'.heap s s' j (off j q) (λ a f.
                let apart : n ≢ a = λ z.
                  let one =
                    one_key m key_of s.map s.nodes xs ev j n v.tracked e (f ∙ ap some (sym z)) in
                  absurd (ground arith) in
                let r : (a == n) ≡ false = ground arith in
                (contents a (v.tracked.used j a f).0 apart, set-stopped ev n a w ∙ rw (r)))
              ∙ sym (deleted_other (view m timers w.heap s) ev fp j q)
        ];
        held = keep;
      }

  -- On a valid record ngx_del_timer_debug comes to an end with a valid record. An event with a
  -- timer of this footprint on record is taken off it, its node is free and has no timer; every
  -- other event, and an event with a timer of another footprint, looks as before.
  pub del_timer_debug-Ends :
      (ev fp file line : ℕ) (w : World m timers) (s : State m timers) (xs : List ℕ)
      → IsValid m timers w.heap s xs
      → Ends m timers s xs
          (deleted (view m timers w.heap s) ev fp)
          (del_timer_debug m timers ev fp file line w (some s))
  unfolding del_timer_debug
  del_timer_debug-Ends ev fp file line w s xs v =
      let v' = deleted (view m timers w.heap s) ev fp in
      elim (Option-cases (m.find s.map ev)) [
        | inl e ↦ subst (Ends m timers s xs v') (sym (rw (del_timer_debug, e))) (
            refused m timers (logged m timers (delete_twice file line) w) s xs v' v (λ j.
              deleted_refused (view m timers w.heap s) ev fp j
                (ap (λ z. may_delete z fp) (view-none m timers w.heap s ev e))))
        | inr (n, e) ↦
            let (_, (x, c, d)) = v.tracked.used ev n e in
            let at = view-some m timers w.heap s ev n x e c in
            elim (Bool-cases (x.footprint == fp)) [
              | inl own ↦
                  subst (Ends m timers s xs v') (sym (rw (del_timer_debug, e, c, own)))
                    (owned-Ends ev fp n w s xs x v e c own)
              | inr other ↦
                  subst (Ends m timers s xs v') (sym (rw (del_timer_debug, e, c, other))) (
                    refused m timers (logged m timers (delete_not_owner file line) w) s xs v' v
                      (λ j.
                        deleted_refused (view m timers w.heap s) ev fp j
                          (ap (λ z. may_delete z fp) at ∙ other)))
            ]
      ]
