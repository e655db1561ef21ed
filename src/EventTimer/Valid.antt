-- ===== src/EventTimer/Valid.antt =====
-- The free list of timers, kept by every operation.
use nginx_toolkit_module.Base.{
  ℕ, zero, suc, ◌+◌, ◌-◌, ◌<◌, ◌≡◌, ◌≢◌, refl, sym, ap, ◌∙◌, ◌⊎◌, inl, inr, true, false, Option,
  none, some, List, [], ◌∷◌, ◌==◌, arith, get_elem?, set, length, length-set, get_elem?-set_self,
  get_elem?-set_ne, Bool-cases, Option-cases, if_false,
}
use nginx_toolkit_module.FreeList.{has, Distinct, Chain, Chain-frame}
use nginx_toolkit_module.EventTimer.{
  link, Ctx, Conf, ok, next_of, as_link, get_timer, free_timer, take_free,
}

-- The timers `xs` are free: chained in this order, counted, and none of them pending. Every
-- timer carries its index.
pub record IsValid (c : Conf) (xs : List ℕ) : Type 0 where
  pub size : length c.timer_ctx ≡ c.timer_n
  pub chain : Chain (next_of c.timer_ctx) c.free_timers xs
  pub distinct : Distinct xs
  pub count : c.free_timer_n ≡ length xs
  pub ids : (i : ℕ) (x : Ctx) → get_elem? c.timer_ctx i ≡ some x → x.timerid ≡ i
  pub idle :
      (i : ℕ) (x : Ctx)
      → has i xs ≡ true
      → get_elem? c.timer_ctx i ≡ some x
      → x.event.timer_set ≡ false

pub lt-length_of_get {ℓ} :
    {A : Type ℓ} (xs : List A) (i : ℕ) {x : A} → get_elem? xs i ≡ some x → i < length xs
lt-length_of_get [] i h = absurd (cc)
lt-length_of_get (y ∷ xs) zero h = omega arith
lt-length_of_get (y ∷ xs) (suc i) h = omega (arith, lt-length_of_get xs i h)

module _ (t : List Ctx) (i : ℕ) (y : Ctx) where
  next_of-set_ne : (a : ℕ) → i ≢ a → next_of (set t i y) a ≡ next_of t a
  unfolding next_of
  next_of-set_ne a h = rw (next_of, get_elem?-set_ne t i a y h)

  pub next_of-set_self : i < length t → next_of (set t i y) i ≡ as_link y.value
  unfolding next_of
  next_of-set_self h = rw (next_of, get_elem?-set_self t i y h)

  ne_of_has : (a : ℕ) (xs : List ℕ) → has a xs ≡ true → has i xs ≡ false → i ≢ a
  ne_of_has a xs h k e = cc (ap (λ z. has z xs) e)

  pub Chain-set :
      (p : Option ℕ) (xs : List ℕ)
      → has i xs ≡ false
      → Chain (next_of t) p xs
      → Chain (next_of (set t i y)) p xs
  Chain-set p xs h =
      Chain-frame (next_of t) (next_of (set t i y)) p xs
        λ a k. next_of-set_ne a (ne_of_has a xs k h)

  -- what stands at a place after a write
  pub get_set :
      (a : ℕ) (x : Ctx)
      → i < length t
      → get_elem? (set t i y) a ≡ some x
      → ((a ≡ i) × (x ≡ y)) ⊎ ((i ≢ a) × (get_elem? t a ≡ some x))
  get_set a x h e = elim (Bool-cases (i == a)) [
    | inl q ↦ let p : i ≡ a = ground arith in inl (sym p, cc (get_elem?-set_self t i y h))
    | inr q ↦ let n : i ≢ a = ground arith in inr (n, sym (get_elem?-set_ne t i a y n) ∙ e)
  ]

-- writing to a timer that is not free keeps the free list
pub write_busy :
    (c : Conf) (xs : List ℕ) (i : ℕ) (y : Ctx)
    → IsValid c xs
    → i < length c.timer_ctx
    → has i xs ≡ false
    → y.timerid ≡ i
    → IsValid (record c { timer_ctx = set c.timer_ctx i y }) xs
write_busy c xs i y v h out id = record {
  size = length-set c.timer_ctx i y ∙ v.size;
  chain = Chain-set c.timer_ctx i y c.free_timers xs out v.chain;
  distinct = v.distinct;
  count = v.count;
  ids = λ a x e. elim (get_set c.timer_ctx i y a x h e) [
    | inl (p, q) ↦ ap (λ (z : Ctx). z.timerid) q ∙ id ∙ sym p
    | inr (n, q) ↦ v.ids a x q
  ];
  idle = λ a x k e. elim (get_set c.timer_ctx i y a x h e) [
    | inl (p, q) ↦ absurd (cc (ap (λ z. has z xs) p))
    | inr (n, q) ↦ v.idle a x k q
  ];
}

-- a timer that is in use and not pending goes to the front of the free list
pub free_timer-IsValid :
    (c : Conf) (xs : List ℕ) (i : ℕ) (x : Ctx)
    → IsValid c xs
    → get_elem? c.timer_ctx i ≡ some x
    → has i xs ≡ false
    → x.event.timer_set ≡ false
    → (c' : Conf) × (free_timer i c ≡ ok tt c') × IsValid c' (i ∷ xs) × (c'.free_timers ≡ some i)
unfolding free_timer as_link
free_timer-IsValid c xs i x v g out off =
    let h = lt-length_of_get c.timer_ctx i g in
    let y : Ctx = record x { value = link c.free_timers } in
    let w = write_busy c xs i y v h out (v.ids i x g) in
    (
      record c {
        timer_ctx = set c.timer_ctx i y;
        free_timers = some i;
        free_timer_n = c.free_timer_n + 1;
      },
      rw (free_timer, g),
      record {
        size = w.size;
        chain = (refl, (c.free_timers, next_of-set_self c.timer_ctx i y h, w.chain));
        distinct = (out, v.distinct);
        count = omega (arith, v.count);
        ids = w.ids;
        idle = λ a z k e. elim (get_set c.timer_ctx i y a z h e) [
          | inl (p, q) ↦ ap (λ (u : Ctx). u.event.timer_set) q ∙ off
          | inr (n, q) ↦ v.idle a z (ground arith) q
        ];
      },
      refl,
    )

next_of-some :
    (t : List Ctx) (i : ℕ) {q : Option ℕ}
    → next_of t i ≡ some q
    → (x : Ctx) × (get_elem? t i ≡ some x)
unfolding next_of
next_of-some t i h = elim (Option-cases (get_elem? t i)) [
  | inl e ↦ absurd (ground arith)
  | inr p ↦ p
]

-- the first free timer is taken off the list
pub get_timer-IsValid :
    (c : Conf) (i : ℕ) (xs : List ℕ)
    → IsValid c (i ∷ xs)
    → (c' : Conf) × (x : Ctx) × (get_timer c ≡ ok (some i) c')
      × IsValid c' xs
      × (c'.timer_ctx ≡ c.timer_ctx)
      × (get_elem? c.timer_ctx i ≡ some x)
unfolding get_timer take_free
get_timer-IsValid c i xs v =
    let (e, (q, l, ch)) = v.chain in
    let (x, g) = next_of-some c.timer_ctx i l in
    (
      record c { free_timers = q; free_timer_n = c.free_timer_n - 1 },
      x,
      if_false (ok none c) (take_free c c.free_timers) (ground (arith, v.count))
          ∙ ap (take_free c) e
          ∙ rw (take_free, l),
      record {
        size = v.size;
        chain = ch;
        distinct = v.distinct.1;
        count = omega (arith, v.count);
        ids = v.ids;
        idle = λ a y k e. v.idle a y (ground arith) e;
      },
      refl,
      g,
    )
