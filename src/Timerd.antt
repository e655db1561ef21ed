-- ===== src/Timerd.antt =====
-- ngx_timerd.c: the timers added through the module are recorded by the client's event, with its
-- footprint and the place in the source that added them. The record is a recycled node, which
-- holds an event of its own that nginx's timer runs on; the map holds its index under the client's
-- event. nginx's timers are the parameter `Timers`, the client's code is given as the calls it
-- makes.
pub mod Record
pub mod Add
pub mod Delete
pub mod Triggers
pub mod Steps
pub mod Stuck
mod Tests
use nginx_toolkit_module.Base.{
  ℕ, ◌+◌, ◌^◌, ◌%◌, ◌≡◌, Bool, true, false, ◌||◌, ◌&&◌, not, Option, none, some, List, [], ◌∷◌,
  ◌==◌, if◌then◌else◌,
}
use nginx_toolkit_module.Map.UintMap.{KeyMap}
use nginx_toolkit_module.NodePool.{NodePool, no_nodes, content_at, get_node, put_node, write}

-- `uev` is `none` where NULL, `file` a pointer; `next` is the pool's, the event `ev` is nginx's
pub record TimerdNode : Type 0 where
  pub raw_key : ℕ
  pub footprint : ℕ
  pub fpoff : ℕ
  pub uev : Option ℕ
  pub file : ℕ
  pub line : ℕ

abbrev pub zero_node : TimerdNode
zero_node = record { raw_key = 0; footprint = 0; fpoff = 0; uev = none; file = 0; line = 0 }

-- what the module reads and writes of the clients' events, which are given by address: the number
-- at an offset of an event's data, and two flags
pub record Users : Type 0 where
  pub footprint_at : ℕ → ℕ → ℕ
  pub timer_set : ℕ → Bool
  pub timedout : ℕ → Bool

-- what is written to the log; a place is a file and a line
pub data Message : Type 0 where
  trigger_not_owner : ℕ → ℕ → Message
  add_not_owner : ℕ → ℕ → ℕ → ℕ → Message
  delete_twice : ℕ → ℕ → Message
  delete_not_owner : ℕ → ℕ → Message

-- nginx's timers and posted events, on the events of the nodes. `zeroed` is a node's event set to
-- zeros, `expired` what nginx does before it calls the handler of an event whose time is up.
pub record Timers : Type 1 where
  pub Heap : Type 0
  pub add_timer : ℕ → ℕ → Heap → Heap
  pub del_timer : ℕ → Heap → Heap
  pub delete_posted_event : ℕ → Heap → Heap
  pub zeroed : ℕ → Heap → Heap
  pub expired : ℕ → Heap → Heap
  pub timer_set : Heap → ℕ → Bool
  pub posted : Heap → ℕ → Bool
  pub timer_set-add_timer :
      (n t j : ℕ) (h : Heap) → timer_set (add_timer n t h) j ≡ (j == n || timer_set h j)
  pub timer_set-del_timer :
      (n j : ℕ) (h : Heap) → timer_set (del_timer n h) j ≡ (not (j == n) && timer_set h j)
  pub timer_set-delete_posted_event :
      (n j : ℕ) (h : Heap) → timer_set (delete_posted_event n h) j ≡ timer_set h j
  pub timer_set-zeroed :
      (n j : ℕ) (h : Heap) → timer_set (zeroed n h) j ≡ (not (j == n) && timer_set h j)
  pub timer_set-expired :
      (n j : ℕ) (h : Heap) → timer_set (expired n h) j ≡ (not (j == n) && timer_set h j)

abbrev pub put {ℓ} : {A : Type ℓ} → (ℕ → A) → ℕ → A → ℕ → A
put f k x j = if j == k then x else f j

abbrev pub with_timer_set : ℕ → Bool → Users → Users
with_timer_set ev b u = record u { timer_set = put u.timer_set ev b }

-- the footprint given out, and the one that is next
pub timerd_footprint : ℕ → ℕ × ℕ
timerd_footprint n = (n, (n + 1) % 2 ^ 64)

module _ (m : KeyMap ℕ) (timers : Timers) where
  -- the module's variables, once ngx_timerd_pool is set
  pub record State : Type 0 where
    pub map : m.Repr
    pub nodes : NodePool TimerdNode

  pub record World : Type 0 where
    pub users : Users
    pub heap : timers.Heap
    pub log : List Message

  -- a NULL pointer followed is `fault`
  pub data Run : Type 0 where
    ok : World → Option State → Run
    fault : Run

  abbrev pub logged : Message → World → World
  logged x w = record w { log = x ∷ w.log }

  -- `made` is whether ngx_create_pool gives a pool
  pub timerd_init : Bool → Option State
  timerd_init made = if made then some (record { map = m.init; nodes = no_nodes }) else none

  -- the end of ngx_add_timer_debug
  pub arm : ℕ → ℕ → ℕ → World → State → Run
  arm ev timer n w s =
      ok
        (record w {
          users = with_timer_set ev true w.users;
          heap = timers.add_timer n timer w.heap;
        })
        (some s)

  -- with the node that ngx_timerd_get_node returns
  pub first_add : ℕ → ℕ → ℕ → ℕ → ℕ → World → State → Option (Option ℕ × NodePool TimerdNode) → Run
  unfolding arm
  first_add ev timer fpoff file line w s none = fault
  first_add ev timer fpoff file line w s (some (none, nodes)) = fault
  first_add ev timer fpoff file line w s (some (some n, nodes)) =
      let x : TimerdNode = record {
        raw_key = ev;
        footprint = w.users.footprint_at ev fpoff;
        fpoff = fpoff;
        uev = some ev;
        file = file;
        line = line;
      } in
      elim (write n x nodes) [
        | none ↦ fault
        | some nodes' ↦
            arm ev timer n (record w { heap = timers.zeroed n w.heap })
              (record { map = m.insert s.map ev n; nodes = nodes' })
      ]

  pub add_again : ℕ → ℕ → ℕ → ℕ → ℕ → World → State → ℕ → Run
  unfolding arm
  add_again ev timer fpoff file line w s n = elim (content_at s.nodes n) [
    | none ↦ fault
    | some x ↦
        if x.footprint == w.users.footprint_at ev fpoff
        then arm ev timer n w s
        else ok (logged (add_not_owner x.file x.line file line) w) (some s)
  ]

  -- `memory` is whether ngx_pcalloc returns memory
  pub add_started : Bool → ℕ → ℕ → ℕ → ℕ → ℕ → World → Option State → Run
  unfolding first_add add_again
  add_started memory ev timer fpoff file line w none = fault
  add_started memory ev timer fpoff file line w (some s) = elim (m.find s.map ev) [
    | none ↦ first_add ev timer fpoff file line w s (get_node zero_node memory s.nodes)
    | some n ↦ add_again ev timer fpoff file line w s n
  ]

  pub add_timer_debug : Bool → Bool → ℕ → ℕ → ℕ → ℕ → ℕ → World → Option State → Run
  unfolding add_started timerd_init
  add_timer_debug made memory ev timer fpoff file line w none =
      add_started memory ev timer fpoff file line w (timerd_init made)
  add_timer_debug made memory ev timer fpoff file line w (some s) =
      add_started memory ev timer fpoff file line w (some s)

  pub stop_timer : ℕ → ℕ → World → World
  stop_timer ev n w =
      if timers.timer_set w.heap n
      then record w { users = with_timer_set ev false w.users; heap = timers.del_timer n w.heap }
      else w

  pub stop_posted : ℕ → World → World
  stop_posted n w =
      if timers.posted w.heap n then record w { heap = timers.delete_posted_event n w.heap } else w

  pub del_owned : ℕ → ℕ → World → State → Run
  unfolding stop_timer stop_posted
  del_owned ev n w s = elim (put_node (some n) s.nodes) [
    | none ↦ fault
    | some nodes ↦
        ok (stop_posted n (stop_timer ev n w))
          (some (record { map = m.delete s.map ev; nodes = nodes }))
  ]

  -- before the first timer the map is all zeros, and empty
  pub del_timer_debug : ℕ → ℕ → ℕ → ℕ → World → Option State → Run
  unfolding del_owned
  del_timer_debug ev footprint file line w none = ok (logged (delete_twice file line) w) none
  del_timer_debug ev footprint file line w (some s) = elim (m.find s.map ev) [
    | none ↦ ok (logged (delete_twice file line) w) (some s)
    | some n ↦ elim (content_at s.nodes n) [
      | none ↦ fault
      | some x ↦
          if x.footprint == footprint
          then del_owned ev n w s
          else ok (logged (delete_not_owner file line) w) (some s)
    ]
  ]

  -- after the client's handler
  pub put_back : ℕ → Run → Run
  put_back n fault = fault
  put_back n (ok w none) = ok w none
  put_back n (ok w (some s)) = elim (put_node (some n) s.nodes) [
    | none ↦ fault
    | some nodes ↦ ok w (some (record s { nodes = nodes }))
  ]

  -- `handler` is what `uev->handler` does, by `uev`
  pub wrap_node : (ℕ → World → Option State → Run) → ℕ → World → State → TimerdNode → Option ℕ → Run
  unfolding put_back
  wrap_node handler n w s x none = fault
  wrap_node handler n w s x (some uev) =
      if w.users.footprint_at uev x.fpoff == x.footprint
      then put_back n (
          handler uev
            (record w {
              users = record w.users {
                timer_set = put w.users.timer_set uev false;
                timedout = put w.users.timedout uev true;
              };
            })
            (some (record s { map = m.delete s.map uev })))
      else ok (logged (trigger_not_owner x.file x.line) w) (some s)

  -- the node is `ev->data` of its event
  pub wrap : (ℕ → World → Option State → Run) → ℕ → World → Option State → Run
  unfolding wrap_node
  wrap handler n w none = fault
  wrap handler n w (some s) = elim (content_at s.nodes n) [
    | none ↦ fault
    | some x ↦ wrap_node handler n w s x x.uev
  ]

-- what a client does: it adds a timer, deletes one, or writes to its own memory
pub data Call : Type 0 where
  add : ℕ → ℕ → ℕ → ℕ → ℕ → Call
  del : ℕ → ℕ → ℕ → ℕ → Call
  change : (Users → Users) → Call

-- a call from outside, or the time of a node's timer is up, where the handler of the event `ev`
-- makes the calls `calls ev`
pub data Step : Type 0 where
  client : Call → Step
  trigger : ℕ → (ℕ → List Call) → Step

module _ (m : KeyMap ℕ) (timers : Timers) where
  pub call : Call → World m timers → Option (State m timers) → Run m timers
  unfolding add_timer_debug del_timer_debug
  call (add ev timer fpoff file line) w s =
      add_timer_debug m timers true true ev timer fpoff file line w s
  call (del ev footprint file line) w s = del_timer_debug m timers ev footprint file line w s
  call (change f) w s = ok (record w { users = f w.users }) s

  pub calls_run : List Call → World m timers → Option (State m timers) → Run m timers
  unfolding call
  calls_run [] w s = ok w s
  calls_run (c ∷ cs) w s = elim (call c w s) [ fault ↦ fault | ok w' s' ↦ calls_run cs w' s' ]

  -- nginx calls the handler of a timer that runs
  pub step : Step → World m timers → Option (State m timers) → Run m timers
  unfolding calls_run wrap
  step (client c) w s = call c w s
  step (trigger n calls) w s =
      if timers.timer_set w.heap n
      then wrap m timers (λ ev. calls_run (calls ev)) n
          (record w { heap = timers.expired n w.heap }) s
      else ok w s

  pub steps_run : List Step → World m timers → Option (State m timers) → Run m timers
  unfolding step
  steps_run [] w s = ok w s
  steps_run (c ∷ cs) w s = elim (step c w s) [ fault ↦ fault | ok w' s' ↦ steps_run cs w' s' ]
