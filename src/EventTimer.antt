-- ===== src/EventTimer.antt =====
-- ngx_event_timer_module.c. A timer is its index in the array `timer_ctx`; the unused ones are
-- chained through their `data` fields. What a call does to freed or unset memory is `fault`.
-- nginx's timers are the parameter `EventTimers`.
pub mod Valid
pub mod Calls
pub mod Init
mod Tests
use nginx_toolkit_module.Base.{
  ℕ, zero, suc, ◌+◌, ◌-◌, ◌≡◌, Bool, true, false, Option, none, some, List, [], ◌∷◌, ◌==◌,
  if◌then◌else◌, get_elem?, set,
}

-- A `void *`: a timer of the array or NULL on the free list, and the user's data while in use.
pub data Pointer : Type 0 where
  link : Option ℕ → Pointer
  user : ℕ → Pointer

-- `log` is whether it is set, `data` the timer that the event is of
pub record Event : Type 0 where
  pub timer_set : Bool
  pub log : Bool
  pub data_of : Option ℕ

pub record Ctx : Type 0 where
  pub timerid : ℕ
  pub event : Event
  pub handler : Option ℕ
  pub value : Pointer

pub record Conf : Type 0 where
  pub timer_n : ℕ
  pub timer_ctx : List Ctx
  pub free_timers : Option ℕ
  pub free_timer_n : ℕ

-- ngx_event_add_timer sets `timer_set`, ngx_event_del_timer clears it; both keep the rest
pub record EventTimers : Type 0 where
  pub add : Event → ℕ → Event
  pub del : Event → Event
  pub timer_set-add : (e : Event) (tv : ℕ) → (add e tv).timer_set ≡ true
  pub timer_set-del : (e : Event) → (del e).timer_set ≡ false

pub data Run (A : Type 0) : Type 0 where
  ok : A → Conf → Run A
  fault : Run A

abbrev pub unset : ℕ
unset = 0xffff_ffff_ffff_ffff

-- `create_conf` and `init_conf`: NGX_CONF_UNSET_UINT becomes 1024
abbrev pub create_conf : Conf
create_conf = record { timer_n = unset; timer_ctx = []; free_timers = none; free_timer_n = 0 }

pub init_conf : Conf → Conf
init_conf c = if c.timer_n == unset then record c { timer_n = 1024 } else c

-- an unused timer
abbrev pub slot : ℕ → Option ℕ → Ctx → Ctx
slot i next t = record t {
  timerid = i;
  event = record (t.event) { timer_set = false; log = false };
  handler = none;
  value = link next;
}

abbrev pub slot_at : List Ctx → ℕ → Option ℕ → List Ctx
slot_at t i next = elim (get_elem? t i) [ none ↦ t | some old ↦ set t i (slot i next old) ]

-- the loop of `process_init`, with the rounds left
pub init_loop : ℕ → Option ℕ → List Ctx → List Ctx × Option ℕ
init_loop zero next t = (t, next)
init_loop (suc i) next t = init_loop i (some i) (slot_at t i next)

-- `memory` is what ngx_alloc returns for the array; the flag is NGX_OK
pub process_init : Option (List Ctx) → Conf → Bool × Conf
unfolding init_loop
process_init memory c = if c.timer_n == 0 then (true, c) else elim memory [
  | none ↦ (false, record c { timer_ctx = [] })
  | some raw ↦
      let (t, next) = init_loop c.timer_n none raw in
      (true, record c { timer_ctx = t; free_timers = next; free_timer_n = c.timer_n })
]

pub as_link : Pointer → Option (Option ℕ)
as_link (link p) = some p
as_link (user _) = none

-- a timer's `data`, where it is a pointer of the free list
pub next_of : List Ctx → ℕ → Option (Option ℕ)
unfolding as_link
next_of t i = elim (get_elem? t i) [ none ↦ none | some x ↦ as_link x.value ]

pub take_free : Conf → Option ℕ → Run (Option ℕ)
unfolding next_of
take_free c none = fault
take_free c (some i) = elim (next_of c.timer_ctx i) [
  | none ↦ fault
  | some next ↦ ok (some i) (record c { free_timers = next; free_timer_n = c.free_timer_n - 1 })
]

pub get_timer : Conf → Run (Option ℕ)
unfolding take_free
get_timer c = if c.free_timer_n == 0 then ok none c else take_free c c.free_timers

pub free_timer : ℕ → Conf → Run (Unit {0})
free_timer i c = elim (get_elem? c.timer_ctx i) [
  | none ↦ fault
  | some x ↦ ok tt (record c {
    timer_ctx = set c.timer_ctx i (record x { value = link c.free_timers });
    free_timers = some i;
    free_timer_n = c.free_timer_n + 1;
  })
]

module _ (ev : EventTimers) where
  -- the timer as it is started
  abbrev pub started : ℕ → ℕ → ℕ → ℕ → Ctx → Ctx
  started tv h data_ i x = record x {
    event = ev.add (record (x.event) { data_of = some i; log = true }) tv;
    handler = some h;
    value = user data_;
  }

  pub start : ℕ → ℕ → ℕ → Run (Option ℕ) → Run (Option ℕ)
  start tv h data_ fault = fault
  start tv h data_ (ok none c) = ok none c
  start tv h data_ (ok (some i) c) = elim (get_elem? c.timer_ctx i) [
    | none ↦ fault
    | some x ↦
        ok (some x.timerid) (record c { timer_ctx = set c.timer_ctx i (started tv h data_ i x) })
  ]

  -- `none` is NGX_ERROR; a handler `none` is NULL
  pub add_timer : ℕ → Option ℕ → ℕ → Conf → Run (Option ℕ)
  unfolding start get_timer
  add_timer tv none data_ c = ok none c
  add_timer tv (some h) data_ c = start tv h data_ (get_timer c)

  pub del_timer : ℕ → Conf → Run (Unit {0})
  unfolding free_timer
  del_timer timerid c = elim (get_elem? c.timer_ctx timerid) [
    | none ↦ fault
    | some x ↦
        if x.event.timer_set
        then free_timer timerid
            (record c { timer_ctx = set c.timer_ctx timerid (record x { event = ev.del x.event }) })
        else ok tt c
  ]

pub and_free : ℕ → Run (Unit {0}) → Run (Unit {0})
unfolding free_timer
and_free i fault = fault
and_free i (ok _ c) = free_timer i c

-- The handler of an expired timer; `call` is the user's handler, which may call the module.
pub event_handler : (ℕ → Pointer → Conf → Run (Unit {0})) → ℕ → Conf → Run (Unit {0})
unfolding and_free
event_handler call i c = elim (get_elem? c.timer_ctx i) [
  | none ↦ fault
  | some x ↦ and_free i (elim x.handler [ none ↦ ok tt c | some h ↦ call h x.value c ])
]
