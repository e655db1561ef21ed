-- ===== src/HttpDynamic/Blocks/Runs.antt =====
-- The runs through the modules of a block, as relations: what they create and what they initialise.
use nginx_toolkit_module.Base.{
  ℕ, ◌≡◌, refl, sym, ap, ◌∙◌, subst, ◌⊎◌, inl, inr, true, false, Option, none, some, List, [], ◌∷◌,
  Bool-cases, Option-cases, All,
}
use nginx_toolkit_module.DynamicConf.Handler.{Rv, conf_ok, conf_error, message}
use nginx_toolkit_module.HttpDynamic.Blocks.{
  Slots, slot_of, Cf, HttpModule, create_confs, init_confs,
}

module _ {T : Type 0} where
  -- each http module that has a function to create a configuration has made one, for its ctx_index
  pub data Creates : List (HttpModule T) → Slots → Cf → T → Slots → Cf → T → Type 0 where
    all_created : (k : Slots) (cf : Cf) (t : T) → Creates [] k cf t k cf t
    not_created :
        (m : HttpModule T) {ms : List (HttpModule T)} {k k' : Slots} {cf cf' : Cf} {t t' : T}
        → (m.hooked ≡ false) ⊎ (m.create ≡ none)
        → Creates ms k cf t k' cf' t'
        → Creates (m ∷ ms) k cf t k' cf' t'
    created :
        (m : HttpModule T) (f : Cf → T → Option ℕ × Cf × T) (p : ℕ) {ms : List (HttpModule T)}
        {k k' : Slots} {cf cf1 cf' : Cf} {t t1 t' : T}
        → m.hooked ≡ true
        → m.create ≡ some f
        → f cf t ≡ (some p, cf1, t1)
        → Creates ms ((m.ctx_index, p) ∷ k) cf1 t1 k' cf' t'
        → Creates (m ∷ ms) k cf t k' cf' t'

  -- each http module that has a function to initialise its configuration has done so
  pub data Inits : List (HttpModule T) → Slots → Cf → T → Cf → T → Type 0 where
    all_done : (k : Slots) (cf : Cf) (t : T) → Inits [] k cf t cf t
    no_init :
        (m : HttpModule T) {ms : List (HttpModule T)} {k : Slots} {cf cf' : Cf} {t t' : T}
        → (m.hooked ≡ false) ⊎ (m.init ≡ none)
        → Inits ms k cf t cf' t'
        → Inits (m ∷ ms) k cf t cf' t'
    one_done :
        (m : HttpModule T) (f : Option ℕ → Cf → T → Rv × Cf × T) {ms : List (HttpModule T)}
        {k : Slots} {cf cf1 cf' : Cf} {t t1 t' : T}
        → m.hooked ≡ true
        → m.init ≡ some f
        → f (slot_of k m.ctx_index) cf t ≡ (conf_ok, cf1, t1)
        → Inits ms k cf1 t1 cf' t'
        → Inits (m ∷ ms) k cf t cf' t'

  pub create_confs-Creates :
      (ms : List (HttpModule T)) (k : Slots) (cf : Cf) (t : T) (k' : Slots)
      → (create_confs ms k cf t).0 ≡ some k'
      → Creates ms k cf t k' (create_confs ms k cf t).1 (create_confs ms k cf t).2
  unfolding create_confs
  create_confs-Creates [] k cf t k' h =
      let e : k ≡ k' = cc in subst (λ z. Creates [] k cf t z cf t) e (all_created k cf t)
  create_confs-Creates (m ∷ ms) k cf t k' h = elim (Bool-cases m.hooked) [
    | inr e ↦ skip (inl e) (rw (create_confs, e)) (create_confs-Creates ms k cf t k')
    | inl e ↦ elim (Option-cases m.create) [
      | inl g ↦ skip (inr g) (rw (create_confs, e, g)) (create_confs-Creates ms k cf t k')
      | inr (f, g) ↦ elim (Option-cases (f cf t).0) [
        | inl j ↦ let q : (create_confs (m ∷ ms) k cf t).0 ≡ none = rw (create_confs, e, g, j) in cc
        | inr (p, j) ↦
            let q : create_confs (m ∷ ms) k cf t
                ≡ create_confs ms ((m.ctx_index, p) ∷ k) (f cf t).1 (f cf t).2 =
              rw (create_confs, e, g, j) in
            subst (λ (r : Option Slots × Cf × T). Creates (m ∷ ms) k cf t k' r.1 r.2) (sym q)
              (created m f p e g (ap (λ z. (z, (f cf t).1, (f cf t).2)) j) (
                create_confs-Creates ms ((m.ctx_index, p) ∷ k) (f cf t).1 (f cf t).2 k'
                  (ap (λ (r : Option Slots × Cf × T). r.0) (sym q) ∙ h)))
      ]
    ]
  ]
    where
      skip :
          (m.hooked ≡ false) ⊎ (m.create ≡ none)
          → create_confs (m ∷ ms) k cf t ≡ create_confs ms k cf t
          → ((create_confs ms k cf t).0 ≡ some k'
              → Creates ms k cf t k' (create_confs ms k cf t).1 (create_confs ms k cf t).2)
          → Creates
              (m ∷ ms)
              k
              cf
              t
              k'
              (create_confs (m ∷ ms) k cf t).1
              (create_confs (m ∷ ms) k cf t).2
      skip why q ih =
          subst (λ (r : Option Slots × Cf × T). Creates (m ∷ ms) k cf t k' r.1 r.2) (sym q)
            (not_created m why (ih (ap (λ (r : Option Slots × Cf × T). r.0) (sym q) ∙ h)))

  pub init_confs-Inits :
      (ms : List (HttpModule T)) (k : Slots) (cf : Cf) (t : T)
      → (init_confs ms k cf t).0 ≡ conf_ok
      → Inits ms k cf t (init_confs ms k cf t).1 (init_confs ms k cf t).2
  unfolding init_confs
  init_confs-Inits [] k cf t h = all_done k cf t
  init_confs-Inits (m ∷ ms) k cf t h = elim (Bool-cases m.hooked) [
    | inr e ↦ skip (inl e) (rw (init_confs, e)) (init_confs-Inits ms k cf t)
    | inl e ↦ elim (Option-cases m.init) [
      | inl g ↦ skip (inr g) (rw (init_confs, e, g)) (init_confs-Inits ms k cf t)
      | inr (f, g) ↦ by_rv f e g (f (slot_of k m.ctx_index) cf t).0 refl (
          init_confs-Inits ms k (f (slot_of k m.ctx_index) cf t).1
            (f (slot_of k m.ctx_index) cf t).2)
    ]
  ]
    where
      skip :
          (m.hooked ≡ false) ⊎ (m.init ≡ none)
          → init_confs (m ∷ ms) k cf t ≡ init_confs ms k cf t
          → ((init_confs ms k cf t).0 ≡ conf_ok
              → Inits ms k cf t (init_confs ms k cf t).1 (init_confs ms k cf t).2)
          → Inits (m ∷ ms) k cf t (init_confs (m ∷ ms) k cf t).1 (init_confs (m ∷ ms) k cf t).2
      skip why q ih =
          subst (λ (r : Rv × Cf × T). Inits (m ∷ ms) k cf t r.1 r.2) (sym q)
            (no_init m why (ih (ap (λ (r : Rv × Cf × T). r.0) (sym q) ∙ h)))

      by_rv :
          (f : Option ℕ → Cf → T → Rv × Cf × T)
          → m.hooked ≡ true
          → m.init ≡ some f
          → (rv : Rv) → (f (slot_of k m.ctx_index) cf t).0 ≡ rv
          → ((init_confs ms k
                  (f (slot_of k m.ctx_index) cf t).1
                  (f (slot_of k m.ctx_index) cf t).2).0
                ≡ conf_ok
              → Inits ms k
                  (f (slot_of k m.ctx_index) cf t).1
                  (f (slot_of k m.ctx_index) cf t).2
                  (init_confs ms k
                    (f (slot_of k m.ctx_index) cf t).1
                    (f (slot_of k m.ctx_index) cf t).2).1
                  (init_confs ms k
                    (f (slot_of k m.ctx_index) cf t).1
                    (f (slot_of k m.ctx_index) cf t).2).2)
          → Inits (m ∷ ms) k cf t (init_confs (m ∷ ms) k cf t).1 (init_confs (m ∷ ms) k cf t).2
      by_rv f e g conf_error j ih =
          let q : (init_confs (m ∷ ms) k cf t).0 ≡ conf_error = rw (init_confs, e, g, j) in cc
      by_rv f e g message j ih =
          let q : (init_confs (m ∷ ms) k cf t).0 ≡ message = rw (init_confs, e, g, j) in cc
      by_rv f e g conf_ok j ih =
          let r = f (slot_of k m.ctx_index) cf t in
          let q : init_confs (m ∷ ms) k cf t ≡ init_confs ms k r.1 r.2 = rw (init_confs, e, g, j) in
          subst (λ (z : Rv × Cf × T). Inits (m ∷ ms) k cf t z.1 z.2) (sym q)
            (one_done m f e g (ap (λ z. (z, r.1, r.2)) j)
              (ih (ap (λ (z : Rv × Cf × T). z.0) (sym q) ∙ h)))

  -- the functions that create leave the configuration state as it was
  abbrev pub KeepsState : HttpModule T → Type 0
  KeepsState m =
      (f : Cf → T → Option ℕ × Cf × T) → m.create ≡ some f → (cf : Cf) (t : T) → (f cf t).1 ≡ cf

  pub create_confs-KeepsState :
      (ms : List (HttpModule T)) (k : Slots) (cf : Cf) (t : T)
      → All KeepsState ms
      → (create_confs ms k cf t).1 ≡ cf
  unfolding create_confs
  create_confs-KeepsState [] k cf t a = refl
  create_confs-KeepsState (m ∷ ms) k cf t (am, a) = elim (Bool-cases m.hooked) [
    | inr e ↦ rw (create_confs, e) (create_confs-KeepsState ms k cf t a)
    | inl e ↦ elim (Option-cases m.create) [
      | inl g ↦ rw (create_confs, e, g) (create_confs-KeepsState ms k cf t a)
      | inr (f, g) ↦ elim (Option-cases (f cf t).0) [
        | inl j ↦ rw (create_confs, e, g, j) (am f g cf t)
        | inr (p, j) ↦
            rw (create_confs, e, g, j)
              (create_confs-KeepsState ms ((m.ctx_index, p) ∷ k) (f cf t).1 (f cf t).2 a
                ∙ am f g cf t)
      ]
    ]
  ]
