-- ===== src/Timerd/Tests.antt =====
-- Events at the addresses 7 and 8, with the footprint 5 of the first and 6 of the second.
use nginx_toolkit_module.Base.{
  ℕ, ◌≡◌, refl, Bool, true, false, ◌||◌, ◌&&◌, not, none, some, List, [], ◌∷◌, ◌==◌, if◌then◌else◌,
}
use nginx_toolkit_module.Map.Functions.{functions}
use nginx_toolkit_module.NodePool.{no_nodes}
use nginx_toolkit_module.Timerd.{
  Users, Timers, State, World, TimerdNode, ok, Call, Step, client, trigger, add, del,
  add_timer_debug, del_timer_debug, steps_run,
}
use nginx_toolkit_module.Timerd.Record.{View, Ends, added, deleted, view}
use nginx_toolkit_module.Timerd.Add.{add_timer_debug-Ends}
use nginx_toolkit_module.Timerd.Delete.{del_timer_debug-Ends}
use nginx_toolkit_module.Timerd.Steps.{Good, steps_run-Good, add_timer_debug_first}
use nginx_toolkit_module.Timerd.Stuck.{trigger-add_stuck}

-- the flags of nginx's events
record Flags : Type 0 where
  timer_set : ℕ → Bool
  posted : ℕ → Bool

abbrev clear : (ℕ → Bool) → ℕ → ℕ → Bool
clear f n j = not (j == n) && f j

abbrev flags : Timers
flags = record {
  Heap = Flags;
  add_timer = λ n t h. record h { timer_set = λ j. j == n || h.timer_set j };
  del_timer = λ n h. record h { timer_set = clear h.timer_set n };
  delete_posted_event = λ n h. record h { posted = clear h.posted n };
  zeroed = λ n h. record { timer_set = clear h.timer_set n; posted = clear h.posted n };
  expired = λ n h. record h { timer_set = clear h.timer_set n };
  timer_set = λ h. h.timer_set;
  posted = λ h. h.posted;
  timer_set-add_timer = λ n t j h. refl;
  timer_set-del_timer = λ n j h. refl;
  timer_set-delete_posted_event = λ n j h. refl;
  timer_set-zeroed = λ n j h. refl;
  timer_set-expired = λ n j h. refl;
}

abbrev idle : Flags
idle = record { timer_set = λ j. false; posted = λ j. false }

abbrev users : Users
users = record {
  footprint_at = λ ev fpoff. if ev == 7 then 5 else 6;
  timer_set = λ ev. false;
  timedout = λ ev. false;
}

abbrev w0 : World functions flags
w0 = record { users = users; heap = idle; log = [] }

abbrev empty : State functions flags
empty = record { map = functions.init; nodes = no_nodes }

abbrev nothing : View
nothing j = none

first :
    Ends functions flags empty []
      (added nothing 7 5)
      (add_timer_debug functions flags true true 7 100 16 1 2 w0 none)
first = add_timer_debug_first functions flags 7 100 16 1 2 w0 λ n. refl

add_timer_debug-Ends_example :
    Ends functions flags first.state first.free
      (added
        (view functions flags first.world.heap first.state)
        8
        (first.world.users.footprint_at 8 16))
      (add_timer_debug functions flags true true 8 50 16 1 3 first.world (some first.state))
add_timer_debug-Ends_example =
    add_timer_debug-Ends functions flags true 8 50 16 1 3 first.world first.state first.free
      first.valid

del_timer_debug-Ends_example :
    Ends functions flags first.state first.free
      (deleted (view functions flags first.world.heap first.state) 7 5)
      (del_timer_debug functions flags 7 5 1 4 first.world (some first.state))
del_timer_debug-Ends_example =
    del_timer_debug-Ends functions flags 7 5 1 4 first.world first.state first.free first.valid

-- the handler of 7 adds its timer again, and one of 8
abbrev again : ℕ → List Call
again ev = add 7 100 16 1 5 ∷ add 8 100 16 1 6 ∷ []

abbrev steps : List Step
steps = client (add 8 50 16 1 3) ∷ trigger 0 again ∷ client (del 8 6 1 4) ∷ []

steps_run-Good_example :
    Good functions flags (steps_run functions flags steps first.world (some first.state))
steps_run-Good_example =
    steps_run-Good functions flags steps first.world first.state first.free first.valid

-- the timer of 7 was added with the footprint 4
abbrev old_node : TimerdNode
old_node = record { raw_key = 7; footprint = 4; fpoff = 16; uev = some 7; file = 1; line = 2 }

abbrev old_state : State functions flags
old_state = record {
  map = functions.insert functions.init 7 0;
  nodes = record {
    nodes = record { content = old_node; next = none } ∷ [];
    free_node = none;
    nalloc = 1;
    nfree = 0;
  };
}

abbrev running : World functions flags
running = record w0 { heap = record idle { timer_set = λ j. j == 0 } }

trigger-add_stuck_example :
    (w' : World functions flags) × (steps_run functions flags
        (trigger 0 again ∷ client (add 7 100 16 1 9) ∷ [])
        running
        (some old_state)
      ≡ ok w' (some old_state))
    × (w'.users ≡ users)
    × (w'.heap ≡ flags.expired 0 running.heap)
    × (flags.timer_set w'.heap 0 ≡ false)
trigger-add_stuck_example =
    trigger-add_stuck functions flags 7 0 100 1 9 again running old_state old_node refl refl refl
      refl refl
