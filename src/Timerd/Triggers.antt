-- ===== src/Timerd/Triggers.antt =====
-- Timers that  and every sequence of calls and triggers.
use nginx_toolkit_module.Base.{
  ℕ, ◌≡◌, ◌≢◌, refl, subst, sym, ap, ◌∙◌, true, false, none, some, List, [], ◌∷◌, ◌==◌, arith,
  if_false,
}
use nginx_toolkit_module.Map.UintMap.{KeyMap}
use nginx_toolkit_module.NodePool.Tracked.{Held, delete-Tracked, release-Tracked}
use nginx_toolkit_module.Timerd.{
  Timers, State, World, Run, ok, put_back, Call, add, del, change, call, calls_run,
}
use nginx_toolkit_module.Timerd.Record.{key_of, View, IsValid, Ends}
use nginx_toolkit_module.Timerd.Add.{add_timer_debug-Ends}
use nginx_toolkit_module.Timerd.Delete.{del_timer_debug-Ends}

module _ (m : KeyMap ℕ) (timers : Timers) where
  -- The run comes to an end with a valid record, and the nodes that are in use but not on record
  -- stay so.
  pub record Kept (s : State m timers) (xs : List ℕ) (r : Run m timers) : Type 0 where
    pub world : World m timers
    pub state : State m timers
    pub free : List ℕ
    pub ends : r ≡ ok world (some state)
    pub valid : IsValid m timers world.heap state free
    pub held :
        (a : ℕ) → Held m key_of s.map s.nodes xs a → Held m key_of state.map state.nodes free a

  Ends-Kept :
      (s : State m timers) (xs : List ℕ) (v : View) (r : Run m timers)
      → Ends m timers s xs v r
      → Kept s xs r
  Ends-Kept s xs v r k = record {
    world = k.world;
    state = k.state;
    free = k.free;
    ends = k.ends;
    valid = k.valid;
    held = k.held;
  }

  Kept-ok :
      (w : World m timers) (s : State m timers) (xs : List ℕ)
      → IsValid m timers w.heap s xs
      → Kept s xs (ok w (some s))
  Kept-ok w s xs v = record {
    world = w;
    state = s;
    free = xs;
    ends = refl;
    valid = v;
    held = λ a u. u;
  }

  pub call-Kept :
      (c : Call) (w : World m timers) (s : State m timers) (xs : List ℕ)
      → IsValid m timers w.heap s xs
      → Kept s xs (call m timers c w (some s))
  unfolding call
  call-Kept (add ev timer fpoff file line) w s xs v =
      Ends-Kept s xs _ _ (add_timer_debug-Ends m timers true ev timer fpoff file line w s xs v)
  call-Kept (del ev footprint file line) w s xs v =
      Ends-Kept s xs _ _ (del_timer_debug-Ends m timers ev footprint file line w s xs v)
  call-Kept (change f) w s xs v = Kept-ok (record w { users = f w.users }) s xs v

  -- one run after another
  Kept-then :
      (s : State m timers) (xs : List ℕ) (r r' : Run m timers) (k : Kept s xs r)
      → Kept k.state k.free r'
      → Kept s xs r'
  Kept-then s xs r r' k k' = record {
    world = k'.world;
    state = k'.state;
    free = k'.free;
    ends = k'.ends;
    valid = k'.valid;
    held = λ a u. k'.held a (k.held a u);
  }

  pub calls_run-Kept :
      (cs : List Call) (w : World m timers) (s : State m timers) (xs : List ℕ)
      → IsValid m timers w.heap s xs
      → Kept s xs (calls_run m timers cs w (some s))
  unfolding calls_run
  calls_run-Kept [] w s xs v = Kept-ok w s xs v
  calls_run-Kept (c ∷ cs) w s xs v =
      let k = call-Kept c w s xs v in
      subst (Kept s xs) (sym (rw (calls_run, k.ends)))
        (Kept-then s xs _ _ k (calls_run-Kept cs k.world k.state k.free k.valid))

  -- what nginx leaves running
  set-expired :
      (n a : ℕ) (h : timers.Heap)
      → timers.timer_set (timers.expired n h) a ≡ true
      → ((a == n) ≡ false) × (timers.timer_set h a ≡ true)
  set-expired n a h on =
      let both = sym (timers.timer_set-expired n a h) ∙ on in (ground arith, ground arith)

  pub expired-IsValid :
      (n : ℕ) (h : timers.Heap) (s : State m timers) (xs : List ℕ)
      → IsValid m timers h s xs
      → IsValid m timers (timers.expired n h) s xs
  expired-IsValid n h s xs v = record {
    tracked = v.tracked;
    armed = λ a on. v.armed a (set-expired n a h on).1;
  }

  -- the record while the handler runs
  pub handled-IsValid :
      (k n : ℕ) (h : timers.Heap) (s : State m timers) (xs : List ℕ)
      → IsValid m timers h s xs
      → m.find s.map k ≡ some n
      → IsValid m timers (timers.expired n h) (record s { map = m.delete s.map k }) xs
  handled-IsValid k n h s xs v e = record {
    tracked = delete-Tracked m key_of s.map s.nodes xs k v.tracked;
    armed = λ a on.
        let (q, on') = set-expired n a h on in
        let (j, g) = v.armed a on' in
        let apart : j ≢ k = λ z.
          let same : some a ≡ some n = sym g ∙ ap (m.find s.map) z ∙ e in
          let one : a ≡ n = cc same in absurd (ground arith) in
        let r : (j == k) ≡ false = ground arith in
        (j, m.find-delete s.map k j ∙ if_false none (m.find s.map j) r ∙ g);
  }

  pub put_back-Kept :
      (n : ℕ) (s : State m timers) (xs : List ℕ) (r : Run m timers)
      → Held m key_of s.map s.nodes xs n
      → Kept s xs r
      → (w' : World m timers) × (s' : State m timers) × (xs' : List ℕ) × (put_back m timers n r
          ≡ ok w' (some s'))
        × IsValid m timers w'.heap s' xs'
  unfolding put_back
  put_back-Kept n s xs r u k =
      let (ns, p, t, _, _) =
        release-Tracked m key_of k.state.map k.state.nodes k.free n k.valid.tracked (k.held n u) in
      (
        k.world,
        record { map = k.state.map; nodes = ns },
        n ∷ k.free,
        ap (put_back m timers n) k.ends ∙ rw (put_back, p),
        record { tracked = t; armed = k.valid.armed },
      )
