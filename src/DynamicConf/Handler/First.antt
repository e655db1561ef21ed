-- ===== src/DynamicConf/Handler/First.antt =====
-- The search of the handler against the list of all commands of all modules.
use nginx_toolkit_module.Base.{
  ◌≡◌, refl, sym, ap, ◌∙◌, subst, ◌⊎◌, inl, inr, Bool, true, false, ◌&&◌, ◌||◌, ℕ, Option, none,
  some, List, [], ◌∷◌, ◌++◌, arith, if◌then◌else◌, Bool-cases, Option-cases, length, All, if_true,
  if_false,
}
use mathlib.Core.Path.{fun_ext}
use nginx_toolkit_module.Text.{Bytes}
use nginx_toolkit_module.DynamicConf.Token.{Rc, error}
use nginx_toolkit_module.DynamicConf.Handler.{
  Command, Module, Search, missing, Place, check, same_name, allowed, commands_loop, go_on,
  modules_loop, carry_out, handler, of_set, Rv, conf_ok, conf_error, message,
}

or_assoc : (a b c : Bool) → (a || (b || c)) ≡ ((a || b) || c)
or_assoc a b c = ground arith

or_false : (a : Bool) → (a || false) ≡ a
or_false a = ground arith

module _ {S : Type 0} where
  -- the commands of a module, each with the module
  abbrev pub with_module : Module S → List (Command S) → List (Module S × Command S)
  with_module m [] = []
  with_module m (c ∷ cs) = (m, c) ∷ with_module m cs

  abbrev pub pairs_of : Module S → Option (List (Command S)) → List (Module S × Command S)
  pairs_of m none = []
  pairs_of m (some cs) = with_module m cs

  abbrev pub commands_of : Module S → List (Module S × Command S)
  commands_of m = pairs_of m m.commands

  -- in the order of the modules
  abbrev pub all_commands : List (Module S) → List (Module S × Command S)
  all_commands [] = []
  all_commands (m ∷ ms) = commands_of m ++ all_commands ms

  module _ (place : Place) (name : Bytes) (n : ℕ) where
    abbrev pub applies : Module S × Command S → Bool
    applies (m, c) = same_name place name n c && allowed place name n m c

    abbrev pub first_applicable : List (Module S × Command S) → Option (Module S × Command S)
    first_applicable [] = none
    first_applicable (p ∷ ps) = if applies p then some p else first_applicable ps

    abbrev pub any_named : List (Module S × Command S) → Bool
    any_named [] = false
    any_named ((m, c) ∷ ps) = same_name place name n c || any_named ps

    -- the verdict on the first command that applies; without one, whether any has the name
    abbrev pub judge : Bool → Option (Module S × Command S) → Search S
    judge found none = missing found
    judge found (some (m, c)) = check place name n c m.ctx_index

    abbrev pub verdict : Bool → List (Module S × Command S) → Search S
    verdict found ps = judge (found || any_named ps) (first_applicable ps)

    verdict_skip :
        (found : Bool) (m : Module S) (c : Command S) (ps : List (Module S × Command S))
        → applies (m, c) ≡ false
        → verdict found ((m, c) ∷ ps) ≡ verdict (found || same_name place name n c) ps
    verdict_skip found m c ps h =
        ap (judge (found || any_named ((m, c) ∷ ps)))
          (if_false (some (m, c)) (first_applicable ps) h)
        ∙ ap (λ z. judge z (first_applicable ps))
            (or_assoc found (same_name place name n c) (any_named ps))

    verdict_hit :
        (found : Bool) (m : Module S) (c : Command S) (ps : List (Module S × Command S))
        → applies (m, c) ≡ true
        → verdict found ((m, c) ∷ ps) ≡ check place name n c m.ctx_index
    verdict_hit found m c ps h =
        ap (judge (found || any_named ((m, c) ∷ ps)))
          (if_true (some (m, c)) (first_applicable ps) h)

    go_on-check :
        (c : Command S) (i : ℕ) (next : Bool → Search S)
        → go_on place name n (check place name n c i) next ≡ check place name n c i
    unfolding check
    go_on-check c i next = ground arith

    commands_loop_skip :
        (m : Module S) (found : Bool) (c : Command S) (cs : List (Command S))
        → applies (m, c) ≡ false
        → commands_loop place name n m found (c ∷ cs)
          ≡ commands_loop place name n m (found || same_name place name n c) cs
    unfolding commands_loop
    commands_loop_skip m found c cs h = ground arith

    commands_loop_hit :
        (m : Module S) (found : Bool) (c : Command S) (cs : List (Command S))
        → applies (m, c) ≡ true
        → commands_loop place name n m found (c ∷ cs) ≡ check place name n c m.ctx_index
    unfolding commands_loop
    commands_loop_hit m found c cs h = ground arith

    verdict-append_module :
        (m : Module S) (found : Bool) (cs : List (Command S)) (ps : List (Module S × Command S))
        → go_on place name n (commands_loop place name n m found cs) (λ f. verdict f ps)
          ≡ verdict found (with_module m cs ++ ps)
    unfolding commands_loop
    verdict-append_module m found [] ps = refl
    verdict-append_module m found (c ∷ cs) ps =
        let later = λ (f : Bool). verdict f ps in
        elim (Bool-cases (applies (m, c))) [
          | inl h ↦
              ap (λ z. go_on place name n z later) (commands_loop_hit m found c cs h)
              ∙ go_on-check c m.ctx_index later
              ∙ sym (verdict_hit found m c (with_module m cs ++ ps) h)
          | inr h ↦
              ap (λ z. go_on place name n z later) (commands_loop_skip m found c cs h)
              ∙ verdict-append_module m (found || same_name place name n c) cs ps
              ∙ sym (verdict_skip found m c (with_module m cs ++ ps) h)
        ]

    modules_loop-first :
        (ms : List (Module S)) (found : Bool)
        → modules_loop place name n found ms ≡ verdict found (all_commands ms)
    unfolding modules_loop
    modules_loop-first [] found = ap missing (sym (or_false found))
    modules_loop-first (m ∷ ms) found =
        let search = λ (o : Option (List (Command S))). elim o as (λ x. Search S) [
          | none ↦ modules_loop place name n found ms
          | some cs ↦
              go_on place name n (commands_loop place name n m found cs)
                (λ f. modules_loop place name n f ms)
        ] in
        let goal =
          λ (o : Option (List (Command S))). verdict found (pairs_of m o ++ all_commands ms) in
        elim (Option-cases m.commands) [
          | inl e ↦ ap search e ∙ modules_loop-first ms found ∙ sym (ap goal e)
          | inr (cs, e) ↦
              ap search e
              ∙ ap (λ f. go_on place name n (commands_loop place name n m found cs) f)
                  (fun_ext (modules_loop-first ms))
              ∙ verdict-append_module m found cs (all_commands ms)
              ∙ sym (ap goal e)
        ]

  -- the handler's search is that of one list of all commands
  pub handler-first :
      (modules : List (Module S)) (place : Place) (name : Bytes) (words : List Bytes) (s : S)
      → handler modules place name words s
        ≡ carry_out
            (verdict place name (length (name ∷ words)) false (all_commands modules))
            (name ∷ words)
            s
  unfolding handler
  handler-first modules place name words s =
      ap (λ z. carry_out z (name ∷ words) s)
        (modules_loop-first place name (length (name ∷ words)) modules false)

  first_applicable-All {ℓ} :
      (place : Place) (name : Bytes) (n : ℕ) (P : Module S × Command S → Type ℓ)
      (ps : List (Module S × Command S))
      → All P ps
      → (p : Module S × Command S) → first_applicable place name n ps ≡ some p
      → P p
  first_applicable-All place name n P [] a p h = absurd (cc)
  first_applicable-All place name n P ((m, c) ∷ ps) a p h =
      elim (Bool-cases (applies place name n (m, c))) [
        | inl e ↦
            let same : some (m, c) ≡ some p =
              sym (if_true (some (m, c)) (first_applicable place name n ps) e) ∙ h in
            let same' : (m, c) ≡ p = cc in subst P same' a.0
        | inr e ↦
            first_applicable-All place name n P ps a.1 p
              (sym (if_false (some (m, c)) (first_applicable place name n ps) e) ∙ h)
      ]

  carry_out-check :
      (place : Place) (name : Bytes) (n i : ℕ) (c : Command S) (words : List Bytes) (s : S)
      → (carry_out (check place name n c i) words s ≡ (error, s))
        ⊎ (carry_out (check place name n c i) words s ≡ of_set (c.set words i s))
  unfolding check
  carry_out-check place name n i c words s = ground arith

  of_set-second {ℓ} : (P : S → Type ℓ) (x : Rv × S) → P x.1 → P (of_set x).1
  of_set-second P (conf_ok, s) h = h
  of_set-second P (conf_error, s) h = h
  of_set-second P (message, s) h = h

  -- what holds of the state, and is kept by each command, is kept by the handler
  pub handler-keeps {ℓ} :
      (P : S → Type ℓ) (modules : List (Module S)) (place : Place) (name : Bytes)
      (words : List Bytes) (s : S)
      → All
          (λ (p : Module S × Command S). (ws : List Bytes) (i : ℕ) → P (p.1.set ws i s).1)
          (all_commands modules)
      → P s
      → P (handler modules place name words s).1
  handler-keeps P modules place name words s a h =
      let n = length (name ∷ words) in
      let ps = all_commands modules in
      subst (λ (z : Rc × S). P z.1) (sym (handler-first modules place name words s))
        (elim (Option-cases (first_applicable place name n ps)) [
          | inl e ↦
              subst
                (λ z.
                  P
                    (carry_out (judge place name n (any_named place name n ps) z) (name ∷ words)
                      s).1)
                (sym e) h
          | inr ((m, c), e) ↦
              subst
                (λ z.
                  P
                    (carry_out (judge place name n (any_named place name n ps) z) (name ∷ words)
                      s).1)
                (sym e)
                (elim (carry_out-check place name n m.ctx_index c (name ∷ words) s) [
                  | inl q ↦ subst (λ (z : Rc × S). P z.1) (sym q) h
                  | inr q ↦
                      subst (λ (z : Rc × S). P z.1) (sym q)
                        (of_set-second P (c.set (name ∷ words) m.ctx_index s) (
                          first_applicable-All place name n _ ps a (m, c) e (name ∷ words)
                            m.ctx_index))
                ])
        ])
