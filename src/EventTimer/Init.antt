-- ===== src/EventTimer/Init.antt =====
-- `ngx_event_timer_process_init` builds the free list of all timers.
use nginx_toolkit_module.Base.{
  ℕ, zero, suc, ◌+◌, ◌≤◌, ◌<◌, ◌≡◌, ◌≢◌, refl, sym, ap, ◌∙◌, subst, inl, inr, Bool, true, false,
  Option, none, some, List, [], ◌∷◌, ◌==◌, arith, get_elem?, set, length, length-set, Bool-cases,
  if_false,
}
use nginx_toolkit_module.FreeList.{has, Distinct, Chain}
use nginx_toolkit_module.EventTimer.{
  Ctx, Conf, slot, slot_at, init_loop, process_init, next_of, as_link,
}
use nginx_toolkit_module.EventTimer.Valid.{
  IsValid, Chain-set, next_of-set_self, get_set, lt-length_of_get,
}

-- the timers i - 1 down to 0 in front of a list: 0, 1, ..., i - 1 and the list
abbrev pub first_timers : ℕ → List ℕ → List ℕ
first_timers zero xs = xs
first_timers (suc i) xs = first_timers i (i ∷ xs)

zero_least : (a : ℕ) → 0 ≤ a
zero_least a = omega arith

-- the array from `i` on is set, and chained
record Ready (i : ℕ) (next : Option ℕ) (t : List Ctx) (xs : List ℕ) : Type 0 where
  chain : Chain (next_of t) next xs
  distinct : Distinct xs
  above : (a : ℕ) → has a xs ≡ true → i ≤ a
  ids : (a : ℕ) (x : Ctx) → i ≤ a → get_elem? t a ≡ some x → x.timerid ≡ a
  idle : (a : ℕ) (x : Ctx) → i ≤ a → get_elem? t a ≡ some x → x.event.timer_set ≡ false

exists_get {ℓ} :
    {A : Type ℓ} (xs : List A) (i : ℕ) → i < length xs → (x : A) × (get_elem? xs i ≡ some x)
exists_get [] i h = absurd (omega arith)
exists_get (y ∷ xs) zero h = (y, refl)
exists_get (y ∷ xs) (suc i) h = exists_get xs i (omega arith)

Ready-slot :
    (i : ℕ) (next : Option ℕ) (t : List Ctx) (xs : List ℕ) (old : Ctx)
    → Ready (suc i) next t xs
    → i < length t
    → Ready i (some i) (set t i (slot i next old)) (i ∷ xs)
unfolding as_link
Ready-slot i next t xs old r h =
    let out : has i xs ≡ false = elim (Bool-cases (has i xs)) [
      | inl k ↦ absurd (omega (arith, r.above i k))
      | inr k ↦ k
    ] in
    record {
      chain = (
        refl,
        (
          next,
          next_of-set_self t i (slot i next old) h,
          Chain-set t i (slot i next old) next xs out r.chain,
        ),
      );
      distinct = (out, r.distinct);
      above = λ a k. elim (Bool-cases (i == a)) [
        | inl e ↦ ground arith
        | inr e ↦ omega (arith, r.above a (ground arith))
      ];
      ids = λ a x k e. elim (get_set t i (slot i next old) a x h e) [
        | inl (p, q) ↦ ap (λ (z : Ctx). z.timerid) q ∙ sym p
        | inr (n, q) ↦ r.ids a x (omega arith) q
      ];
      idle = λ a x k e. elim (get_set t i (slot i next old) a x h e) [
        | inl (p, q) ↦ ap (λ (z : Ctx). z.event.timer_set) q
        | inr (n, q) ↦ r.idle a x (omega arith) q
      ];
    }

init_loop-Ready :
    (i : ℕ) (next : Option ℕ) (t : List Ctx) (xs : List ℕ)
    → i ≤ length t
    → Ready i next t xs
    → Ready 0 (init_loop i next t).1 (init_loop i next t).0 (first_timers i xs)
      × (length (init_loop i next t).0 ≡ length t)
unfolding init_loop
init_loop-Ready zero next t xs h r = (r, refl)
init_loop-Ready (suc i) next t xs h r =
    let (old, e) = exists_get t i (omega arith) in
    let t' = set t i (slot i next old) in
    let same : slot_at t i next ≡ t' = rw (slot_at, e) in
    let size = length-set t i (slot i next old) in
    let (ready, n) =
      init_loop-Ready i (some i) t' (i ∷ xs) (omega (arith, size))
        (Ready-slot i next t xs old r (omega arith)) in
    rw (init_loop, same) (ready, n ∙ size)

length-first_timers : (i : ℕ) (xs : List ℕ) → length (first_timers i xs) ≡ i + length xs
length-first_timers zero xs = omega arith
length-first_timers (suc i) xs = omega (arith, length-first_timers i (i ∷ xs))

-- Whatever the memory holds that ngx_alloc returns for an array of `timer_n` timers, after
-- ngx_event_timer_process_init the timers 0, 1, ..., timer_n - 1 are all free, in this order.
pub process_init-IsValid :
    (c : Conf) (raw : List Ctx)
    → c.timer_n ≢ 0
    → length raw ≡ c.timer_n
    → ((process_init (some raw) c).0 ≡ true)
      × IsValid (process_init (some raw) c).1 (first_timers c.timer_n [])
unfolding process_init
process_init-IsValid c raw h n =
    let k = c.timer_n in
    let start : Ready k none raw [] = record {
      chain = refl;
      distinct = tt;
      above = λ a e. absurd (cc);
      ids =
          λ a x h' (e : get_elem? raw a ≡ some x). absurd (omega (arith, lt-length_of_get raw a e));
      idle =
          λ a x h' (e : get_elem? raw a ≡ some x). absurd (omega (arith, lt-length_of_get raw a e));
    } in
    let (ready, size) = init_loop-Ready k none raw [] (omega arith) start in
    let r = init_loop k none raw in
    let c' : Conf = record c { timer_ctx = r.0; free_timers = r.1; free_timer_n = k } in
    let e : process_init (some raw) c ≡ (true, c') = if_false (true, c) (true, c') (ground arith) in
    let v : IsValid c' (first_timers k []) = record {
      size = size ∙ n;
      chain = ready.chain;
      distinct = ready.distinct;
      count = omega (arith, length-first_timers k []);
      ids = λ a x q. ready.ids a x (zero_least a) q;
      idle = λ a x g q. ready.idle a x (zero_least a) q;
    } in
    (
      ap (λ (z : Bool × Conf). z.0) e,
      subst (λ (z : Bool × Conf). IsValid z.1 (first_timers k [])) (sym e) v,
    )
