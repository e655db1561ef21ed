-- ===== src/Timerd/Record.antt =====
-- The record of timers through ngx_add_timer_debug and ngx_del_timer_debug.
use nginx_toolkit_module.Base.{
  ℕ, ◌≡◌, refl, sym, ap, ◌∙◌, inl, inr, Bool, true, false, ◌&&◌, Option, none, some, List, ◌==◌,
  arith, if◌then◌else◌, Option-cases, if_true, if_false,
}
use nginx_toolkit_module.Map.UintMap.{KeyMap}
use nginx_toolkit_module.NodePool.{content_at}
use nginx_toolkit_module.NodePool.Tracked.{Tracked, Held}
use nginx_toolkit_module.Timerd.{TimerdNode, Timers, State, World, Run, ok}

abbrev pub key_of : TimerdNode → Option ℕ
key_of x = x.uev

-- What a client sees of its events: the footprint of the owner of the timer on record, and
-- whether the timer runs.
abbrev pub View : Type 0
View = ℕ → Option (ℕ × Bool)

-- what ngx_add_timer_debug and ngx_del_timer_debug promise of an event
abbrev pub may_add : Option (ℕ × Bool) → ℕ → Bool
may_add none fp = true
may_add (some (owner, _)) fp = owner == fp

abbrev pub may_delete : Option (ℕ × Bool) → ℕ → Bool
may_delete none fp = false
may_delete (some (owner, _)) fp = owner == fp

abbrev pub added : View → ℕ → ℕ → View
added v ev fp j = if (j == ev && may_add (v ev) fp) then some (fp, true) else v j

abbrev pub deleted : View → ℕ → ℕ → View
deleted v ev fp j = if (j == ev && may_delete (v ev) fp) then none else v j

abbrev pub seen_node : Option TimerdNode → Bool → Option (ℕ × Bool)
seen_node none b = none
seen_node (some x) b = some (x.footprint, b)

pub added_self :
    (v : View) (ev fp j : ℕ)
    → (j == ev) ≡ true
    → may_add (v ev) fp ≡ true
    → added v ev fp j ≡ some (fp, true)
added_self v ev fp j e may = if_true {b = j == ev && may_add (v ev) fp} _ (v j) (rw (e, may))

pub added_other : (v : View) (ev fp j : ℕ) → (j == ev) ≡ false → added v ev fp j ≡ v j
added_other v ev fp j e = if_false {b = j == ev && may_add (v ev) fp} _ (v j) (rw e)

pub added_refused : (v : View) (ev fp j : ℕ) → may_add (v ev) fp ≡ false → added v ev fp j ≡ v j
added_refused v ev fp j bad = if_false {b = j == ev && may_add (v ev) fp} _ (v j) (ground arith)

pub deleted_self :
    (v : View) (ev fp j : ℕ)
    → (j == ev) ≡ true
    → may_delete (v ev) fp ≡ true
    → deleted v ev fp j ≡ none
deleted_self v ev fp j e may =
    if_true {b = j == ev && may_delete (v ev) fp} none (v j) (rw (e, may))

pub deleted_other : (v : View) (ev fp j : ℕ) → (j == ev) ≡ false → deleted v ev fp j ≡ v j
deleted_other v ev fp j e = if_false {b = j == ev && may_delete (v ev) fp} none (v j) (rw e)

pub deleted_refused :
    (v : View) (ev fp j : ℕ) → may_delete (v ev) fp ≡ false → deleted v ev fp j ≡ v j
deleted_refused v ev fp j bad =
    if_false {b = j == ev && may_delete (v ev) fp} none (v j) (ground arith)

module _ (m : KeyMap ℕ) (timers : Timers) where
  abbrev pub seen_at : timers.Heap → State m timers → Option ℕ → Option (ℕ × Bool)
  seen_at h s none = none
  seen_at h s (some n) = seen_node (content_at s.nodes n) (timers.timer_set h n)

  abbrev pub view : timers.Heap → State m timers → View
  view h s j = seen_at h s (m.find s.map j)

  -- Every timer on record has a node in use of its own, which holds its event; the nodes `xs`
  -- are free. A node whose timer runs is on record.
  pub record IsValid (h : timers.Heap) (s : State m timers) (xs : List ℕ) : Type 0 where
    pub tracked : Tracked m key_of s.map s.nodes xs
    pub armed : (n : ℕ) → timers.timer_set h n ≡ true → (k : ℕ) × (m.find s.map k ≡ some n)

  -- The run comes to an end, with a valid record that shows `v`, and the nodes that are in use but
  -- not on record stay so.
  pub record Ends (s : State m timers) (xs : List ℕ) (v : View) (r : Run m timers) : Type 0 where
    pub world : World m timers
    pub state : State m timers
    pub free : List ℕ
    pub ends : r ≡ ok world (some state)
    pub valid : IsValid world.heap state free
    pub seen : (j : ℕ) → view world.heap state j ≡ v j
    pub held :
        (a : ℕ) → Held m key_of s.map s.nodes xs a → Held m key_of state.map state.nodes free a

  pub view-some :
      (h : timers.Heap) (s : State m timers) (j a : ℕ) (x : TimerdNode)
      → m.find s.map j ≡ some a
      → content_at s.nodes a ≡ some x
      → view h s j ≡ some (x.footprint, timers.timer_set h a)
  view-some h s j a x e c = rw (view, seen_at, e, c)

  pub view-none :
      (h : timers.Heap) (s : State m timers) (j : ℕ) → m.find s.map j ≡ none → view h s j ≡ none
  view-none h s j e = rw (view, seen_at, e)

  -- an event that a change does not reach looks as it did
  pub view-same :
      (h h' : timers.Heap) (s s' : State m timers) (j : ℕ)
      → m.find s'.map j ≡ m.find s.map j
      → ((a : ℕ)
          → m.find s.map j ≡ some a
          → (content_at s'.nodes a ≡ content_at s.nodes a)
            × (timers.timer_set h' a ≡ timers.timer_set h a))
      → view h' s' j ≡ view h s j
  view-same h h' s s' j same keep = elim (Option-cases (m.find s.map j)) [
    | inl e ↦ view-none h' s' j (same ∙ e) ∙ sym (view-none h s j e)
    | inr (a, e) ↦
        let (c, t) = keep a e in
        ap (seen_at h' s') (same ∙ e)
        ∙ ap (λ z. seen_node z (timers.timer_set h' a)) c
        ∙ ap (seen_node (content_at s.nodes a)) t
        ∙ sym (ap (seen_at h s) e)
  ]

  -- a call that does nothing
  pub refused :
      (w : World m timers) (s : State m timers) (xs : List ℕ) (v : View)
      → IsValid w.heap s xs
      → ((j : ℕ) → v j ≡ view w.heap s j)
      → Ends s xs v (ok w (some s))
  refused w s xs v valid same = record {
    world = w;
    state = s;
    free = xs;
    ends = refl;
    valid = valid;
    seen = λ j. sym (same j);
    held = λ a u. u;
  }
