-- ===== src/Timerd/Add.antt =====
-- ngx_add_timer_debug, on a valid record.
use nginx_toolkit_module.Base.{
  ℕ, ◌≡◌, ◌≢◌, refl, subst, sym, ap, ◌∙◌, inl, inr, Bool, true, false, none, some, List, ◌==◌,
  arith, drop, Bool-cases, Option-cases, if_true, if_false,
}
use nginx_toolkit_module.Map.UintMap.{KeyMap}
use nginx_toolkit_module.NodePool.{content_at, get_node}
use nginx_toolkit_module.NodePool.Tracked.{one_key, find-insert_new, get_node-Tracked}
use nginx_toolkit_module.Timerd.{
  TimerdNode, zero_node, Timers, State, World, arm, first_add, add_again, add_started,
  add_timer_debug, add_not_owner, logged, with_timer_set,
}
use nginx_toolkit_module.Timerd.Record.{
  key_of, may_add, added, view, IsValid, Ends, view-some, view-none, view-same, refused, added_self,
  added_other, added_refused,
}

module _ (m : KeyMap ℕ) (timers : Timers) where
  set_on :
      (n t j : ℕ) (h : timers.Heap)
      → (j == n) ≡ true
      → timers.timer_set (timers.add_timer n t h) j ≡ true
  set_on n t j h e = timers.timer_set-add_timer n t j h ∙ rw (e)

  set_kept :
      (n t j : ℕ) (h : timers.Heap)
      → (j == n) ≡ false
      → timers.timer_set (timers.add_timer n t h) j ≡ timers.timer_set h j
  set_kept n t j h e = timers.timer_set-add_timer n t j h ∙ rw (e)

  eq_refl : (n : ℕ) → (n == n) ≡ true
  eq_refl n = ground arith

  -- the timer of a node on record started
  arm-Ends :
      (ev timer fp n : ℕ) (w : World m timers) (s : State m timers) (xs : List ℕ) (x : TimerdNode)
      → IsValid m timers w.heap s xs
      → m.find s.map ev ≡ some n
      → content_at s.nodes n ≡ some x
      → (x.footprint == fp) ≡ true
      → Ends m timers s xs (added (view m timers w.heap s) ev fp) (arm m timers ev timer n w s)
  unfolding arm
  arm-Ends ev timer fp n w s xs x v e c own =
      let h' = timers.add_timer n timer w.heap in
      let at = view-some m timers w.heap s ev n x e c in
      let may : may_add (view m timers w.heap s ev) fp ≡ true = ap (λ z. may_add z fp) at ∙ own in
      record {
        world = record w { users = with_timer_set ev true w.users; heap = h' };
        state = s;
        free = xs;
        ends = refl;
        valid = record {
          tracked = v.tracked;
          armed = λ a on. elim (Bool-cases (a == n)) [
            | inl q ↦ let same : a ≡ n = ground arith in (ev, e ∙ ap some (sym same))
            | inr q ↦ v.armed a (sym (set_kept n timer a w.heap q) ∙ on)
          ];
        };
        seen = λ j. elim (Bool-cases (j == ev)) [
          | inl q ↦
              let same : j ≡ ev = ground arith in
              let fp_ : x.footprint ≡ fp = ground arith in
              ap (view m timers h' s) same
              ∙ view-some m timers h' s ev n x e c
              ∙ ap (λ z. some (x.footprint, z)) (set_on n timer n w.heap (eq_refl n))
              ∙ ap (λ z. some (z, true)) fp_
              ∙ sym (added_self (view m timers w.heap s) ev fp j q may)
          | inr q ↦
              view-same m timers w.heap h' s s j refl (λ a f. (
                refl,
                set_kept n timer a w.heap (elim (Bool-cases (a == n)) [
                  | inl r ↦
                      let same : a ≡ n = ground arith in
                      let one =
                        one_key m key_of s.map s.nodes xs ev j n v.tracked e (f ∙ ap some same) in
                      absurd (ground arith)
                  | inr r ↦ r
                ]),
              ))
              ∙ sym (added_other (view m timers w.heap s) ev fp j q)
        ];
        held = λ a u. u;
      }

  again-Ends :
      (ev timer fpoff file line n : ℕ) (w : World m timers) (s : State m timers) (xs : List ℕ)
      → IsValid m timers w.heap s xs
      → m.find s.map ev ≡ some n
      → Ends m timers s xs
          (added (view m timers w.heap s) ev (w.users.footprint_at ev fpoff))
          (add_again m timers ev timer fpoff file line w s n)
  unfolding add_again
  again-Ends ev timer fpoff file line n w s xs v e =
      let fp = w.users.footprint_at ev fpoff in
      let (_, (x, c, d)) = v.tracked.used ev n e in
      let at = view-some m timers w.heap s ev n x e c in
      elim (Bool-cases (x.footprint == fp)) [
        | inl own ↦
            subst (Ends m timers s xs (added (view m timers w.heap s) ev fp))
              (sym (rw (add_again, c, own))) (arm-Ends ev timer fp n w s xs x v e c own)
        | inr other ↦
            subst (Ends m timers s xs (added (view m timers w.heap s) ev fp))
              (sym (rw (add_again, c, other)))
              (refused m timers (logged m timers (add_not_owner x.file x.line file line) w) s xs _ v
                (λ j.
                  added_refused (view m timers w.heap s) ev fp j
                    (ap (λ z. may_add z fp) at ∙ other)))
      ]

  fresh_kept :
      (n t j : ℕ) (h : timers.Heap)
      → (j == n) ≡ false
      → timers.timer_set (timers.add_timer n t (timers.zeroed n h)) j ≡ timers.timer_set h j
  fresh_kept n t j h e =
      set_kept n t j (timers.zeroed n h) e ∙ timers.timer_set-zeroed n j h ∙ rw (e)

  first-Ends :
      (ev timer fpoff file line : ℕ) (w : World m timers) (s : State m timers) (xs : List ℕ)
      → IsValid m timers w.heap s xs
      → m.find s.map ev ≡ none
      → Ends m timers s xs
          (added (view m timers w.heap s) ev (w.users.footprint_at ev fpoff))
          (first_add m timers ev timer fpoff file line w s (get_node zero_node true s.nodes))
  unfolding first_add arm
  first-Ends ev timer fpoff file line w s xs v new =
      let fp = w.users.footprint_at ev fpoff in
      let x : TimerdNode = record {
        raw_key = ev;
        footprint = fp;
        fpoff = fpoff;
        uev = some ev;
        file = file;
        line = line;
      } in
      let (n, ns, ns', e, p, t, mine, others, keep) =
        get_node-Tracked m key_of s.map zero_node x s.nodes xs ev v.tracked new refl in
      let at = view-none m timers w.heap s ev new in
      let may : may_add (view m timers w.heap s ev) fp ≡ true = ap (λ z. may_add z fp) at in
      let s' : State m timers = record { map = m.insert s.map ev n; nodes = ns' } in
      let h' = timers.add_timer n timer (timers.zeroed n w.heap) in
      let find' = λ (j : ℕ). find-insert_new m key_of s.map ev n j new in
      let find_ev : m.find s'.map ev ≡ some n =
        find' ev ∙ if_true (some n) (m.find s.map ev) (eq_refl ev) in
      record {
        world = record w { users = with_timer_set ev true w.users; heap = h' };
        state = s';
        free = drop 1 xs;
        ends = ap (first_add m timers ev timer fpoff file line w s) e ∙ rw (first_add, p);
        valid = record {
          tracked = t;
          armed = λ a on. elim (Bool-cases (a == n)) [
            | inl q ↦ let same : a ≡ n = ground arith in (ev, find_ev ∙ ap some (sym same))
            | inr q ↦
                let (k, g) = v.armed a (sym (fresh_kept n timer a w.heap q) ∙ on) in
                let apart : k ≢ ev = λ z. cc (ap (λ i. m.find s.map i) z) in
                let r : (k == ev) ≡ false = ground arith in
                (k, find' k ∙ if_false (some n) (m.find s.map k) r ∙ g)
          ];
        };
        seen = λ j. elim (Bool-cases (j == ev)) [
          | inl q ↦
              let same : j ≡ ev = ground arith in
              ap (view m timers h' s') same
              ∙ view-some m timers h' s' ev n x find_ev mine
              ∙ ap (λ z. some (fp, z)) (set_on n timer n (timers.zeroed n w.heap) (eq_refl n))
              ∙ sym (added_self (view m timers w.heap s) ev fp j q may)
          | inr q ↦
              view-same m timers w.heap h' s s' j (find' j ∙ if_false (some n) (m.find s.map j) q)
                (λ a f.
                  let (apart, c) = others a (v.tracked.used j a f).0 in
                  (c, fresh_kept n timer a w.heap (ground arith)))
              ∙ sym (added_other (view m timers w.heap s) ev fp j q)
        ];
        held = keep;
      }

  -- On a valid record, where there is memory, ngx_add_timer_debug comes to an end with a valid
  -- record. An event that has no timer on record, or whose timer has the footprint read from the
  -- event's data, is on record with that footprint and its timer runs; every other event, and an
  -- event with a timer of another footprint, looks as before.
  pub add_timer_debug-Ends :
      (made : Bool) (ev timer fpoff file line : ℕ) (w : World m timers) (s : State m timers)
      (xs : List ℕ)
      → IsValid m timers w.heap s xs
      → Ends m timers s xs
          (added (view m timers w.heap s) ev (w.users.footprint_at ev fpoff))
          (add_timer_debug m timers made true ev timer fpoff file line w (some s))
  unfolding add_timer_debug add_started
  add_timer_debug-Ends made ev timer fpoff file line w s xs v =
      let v' = added (view m timers w.heap s) ev (w.users.footprint_at ev fpoff) in
      elim (Option-cases (m.find s.map ev)) [
        | inl e ↦
            subst (Ends m timers s xs v') (sym (rw (add_started, e)))
              (first-Ends ev timer fpoff file line w s xs v e)
        | inr (n, e) ↦
            subst (Ends m timers s xs v') (sym (rw (add_started, e)))
              (again-Ends ev timer fpoff file line n w s xs v e)
      ]
