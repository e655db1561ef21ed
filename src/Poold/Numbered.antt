-- ===== src/Poold/Numbered.antt =====
-- Pools at the addresses 1, 2, 3, ... in the order of creation: a concrete `Pools`.
use nginx_toolkit_module.Base.{
  ℕ, ◌+◌, ◌<◌, inl, inr, ◌≡◌, refl, ap, ◌∙◌, sym, Bool, true, false, Option, none, some, ◌==◌,
  arith, if◌then◌else◌, Bool-cases,
}
use nginx_toolkit_module.Poold.{Pools}

-- the addresses of the live pools, and the next address, which none of them reaches
pub record Heap : Type 0 where
  pub live : ℕ → Bool
  pub top : ℕ
  pub bound : (p : ℕ) → live p ≡ true → (p < top)

pub bound-create :
    (h : Heap) (p : ℕ) → (if p == h.top then true else h.live p) ≡ true → p < h.top + 1
bound-create h p e = elim (Bool-cases (p == h.top)) [
  | inl k ↦ ground arith
  | inr k ↦ ground (arith, h.bound p)
]

abbrev pub create : ℕ → Heap → Option ℕ × Heap
create size h = (
  some h.top,
  record {
    live = λ q. if q == h.top then true else h.live q;
    top = h.top + 1;
    bound = bound-create h;
  },
)

pub bound-destroy : (h : Heap) (p q : ℕ) → (if q == p then false else h.live q) ≡ true → q < h.top
bound-destroy h p q e = elim (Bool-cases (q == p)) [
  | inl k ↦ absurd (ground arith)
  | inr k ↦ h.bound q (ground arith)
]

abbrev pub destroy : ℕ → Heap → Heap
destroy p h = record {
  live = λ q. if q == p then false else h.live q;
  top = h.top;
  bound = bound-destroy h p;
}

pub top_of : (h : Heap) (p : ℕ) → some h.top ≡ some p → h.top ≡ p
top_of h p e = cc

pub create_fresh_top :
    (size : ℕ) (h h' : Heap) (p : ℕ) → create size h ≡ (some p, h') → h.live p ≡ false
create_fresh_top size h h' p e = elim (Bool-cases (h.live p)) [
  | inr off ↦ off
  | inl on ↦
      let at = top_of h p (ap (λ (z : Option ℕ × Heap). z.0) e) in
      absurd (omega (arith, h.bound p on, at))
]

pub live_of_create :
    (size : ℕ) (h h' : Heap) (p q : ℕ)
    → create size h ≡ (some p, h')
    → h'.live q ≡ (if q == p then true else h.live q)
live_of_create size h h' p q e =
    ap (λ (z : Option ℕ × Heap). z.1.live q) (sym e)
    ∙ ap (λ z. if q == z then true else h.live q) (top_of h p (ap (λ (z : Option ℕ × Heap). z.0) e))

pub create-ne-none :
    (size : ℕ) (h h' : Heap) (q : ℕ) → create size h ≡ (none, h') → h'.live q ≡ h.live q
create-ne-none size h h' q e =
    let bad : some h.top ≡ none = ap (λ (z : Option ℕ × Heap). z.0) e in absurd (cc)

abbrev pub pools : Pools
pools = record {
  Heap = Heap;
  create = create;
  destroy = destroy;
  alive = λ h p. h.live p;
  create_fresh = create_fresh_top;
  alive-create = live_of_create;
  alive-create_none = create-ne-none;
  alive-destroy = λ p q h. refl;
}

pub none_live : (p : ℕ) → false ≡ true → p < 1
none_live p e = absurd (cc)

abbrev pub nothing : Heap
nothing = record { live = λ p. false; top = 1; bound = none_live }

abbrev pub later : ℕ → Heap → Heap
later n h = (create n h).1
