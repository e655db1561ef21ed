-- ===== src/DynamicConf/Handler/Answers.antt =====
-- What the handler returns for a directive, and what it calls.
use nginx_toolkit_module.Base.{
  ◌≡◌, ◌≢◌, refl, sym, ap, ◌∙◌, subst, ◌⊎◌, inl, inr, ℕ, ◌+◌, none, some, List, [], ◌∷◌, ◌++◌,
  arith, Bool-cases, length, All, if_true, if_false,
}
use nginx_toolkit_module.Text.{Bytes}
use nginx_toolkit_module.DynamicConf.Token.{Rc, error, ok}
use nginx_toolkit_module.DynamicConf.Handler.{
  Command, Module, Place, check, carry_out, handler, of_set, Rv, conf_ok, conf_error, message,
}
use nginx_toolkit_module.DynamicConf.Handler.First.{
  all_commands, applies, any_named, first_applicable, judge, handler-first,
}
use nginx_toolkit_module.DynamicConf.Handler.Decides.{
  Applies, Fits, Applies-applies, applies-Applies, fits, Fits-fits, fits-Fits, check-fits,
  carry_out_unfit,
}

module _ {S : Type 0} (place : Place) (name : Bytes) where
  -- the first command that applies, behind those that do not
  pub record FirstOf (ps : List (Module S × Command S)) (p : Module S × Command S) : Type 0 where
    pub before : List (Module S × Command S)
    pub behind : List (Module S × Command S)
    pub whole : ps ≡ before ++ (p ∷ behind)
    pub passed : All (λ q. ¬ Applies place name q) before
    pub here : Applies place name p

  FirstOf-cons :
      (q : Module S × Command S) (ps : List (Module S × Command S)) (p : Module S × Command S)
      → ¬ Applies place name q
      → FirstOf ps p
      → FirstOf (q ∷ ps) p
  FirstOf-cons q ps p n f = record {
    before = q ∷ f.before;
    behind = f.behind;
    whole = ap (λ z. q ∷ z) f.whole;
    passed = (n, f.passed);
    here = f.here;
  }

  first_applicable-FirstOf :
      (n : ℕ) (ps : List (Module S × Command S))
      → ((first_applicable place name n ps ≡ none) × All (λ q. ¬ Applies place name q) ps)
        ⊎ ((p : Module S × Command S) × (first_applicable place name n ps ≡ some p) × FirstOf ps p)
  first_applicable-FirstOf n [] = inl (refl, tt)
  first_applicable-FirstOf n (q ∷ ps) = elim (Bool-cases (applies place name n q)) [
    | inl e ↦ inr (
      q,
      if_true (some q) (first_applicable place name n ps) e,
      record {
        before = [];
        behind = ps;
        whole = refl;
        passed = tt;
        here = applies-Applies place name n q e;
      },
    )
    | inr e ↦
        let skip = if_false (some q) (first_applicable place name n ps) e in
        let no : ¬ Applies place name q = λ a. cc (sym e ∙ Applies-applies place name n q a) in
        elim (first_applicable-FirstOf n ps) [
          | inl (f, a) ↦ inl (skip ∙ f, (no, a))
          | inr (p, f, a) ↦ inr (p, skip ∙ f, FirstOf-cons q ps p no a)
        ]
  ]

  -- the answer to a directive: of the first command that applies, called where the form fits, an
  -- error where it does not, and where no command applies
  pub data Answers (modules : List (Module S)) (words : List Bytes) (s : S) (r : Rc × S)
      : Type 0 where
    accepted :
        (m : Module S) (c : Command S)
        → FirstOf (all_commands modules) (m, c)
        → Fits place name (length words) c
        → c.set words m.ctx_index s ≡ (conf_ok, r.1)
        → r.0 ≡ ok
        → Answers modules words s r
    rejected :
        (m : Module S) (c : Command S) (rv : Rv)
        → FirstOf (all_commands modules) (m, c)
        → Fits place name (length words) c
        → rv ≢ conf_ok
        → c.set words m.ctx_index s ≡ (rv, r.1)
        → r.0 ≡ error
        → Answers modules words s r
    unfit :
        (m : Module S) (c : Command S)
        → FirstOf (all_commands modules) (m, c)
        → ¬ Fits place name (length words) c
        → r ≡ (error, s)
        → Answers modules words s r
    unanswered :
        All (λ q. ¬ Applies place name q) (all_commands modules)
        → r ≡ (error, s)
        → Answers modules words s r

  of_set-Answers :
      (modules : List (Module S)) (words : List Bytes) (s : S) (m : Module S) (c : Command S)
      (x : Rv × S)
      → FirstOf (all_commands modules) (m, c)
      → Fits place name (length words) c
      → c.set words m.ctx_index s ≡ x
      → Answers modules words s (of_set x)
  of_set-Answers modules words s m c (conf_ok, s') f g e = accepted m c f g e refl
  of_set-Answers modules words s m c (conf_error, s') f g e =
      rejected m c conf_error f g (λ z. cc z) e refl
  of_set-Answers modules words s m c (message, s') f g e =
      rejected m c message f g (λ z. cc z) e refl

  carry_out-Answers :
      (modules : List (Module S)) (k : ℕ) (words : List Bytes) (s : S) (m : Module S)
      (c : Command S)
      → length words ≡ k + 1
      → FirstOf (all_commands modules) (m, c)
      → Answers modules words s (carry_out (check place name (length words) c m.ctx_index) words s)
  carry_out-Answers modules k words s m c l f = elim (Bool-cases (fits place name (k + 1) c)) [
    | inl e ↦
        let q : carry_out (check place name (length words) c m.ctx_index) words s
            ≡ of_set (c.set words m.ctx_index s) =
          ap (λ z. carry_out (check place name z c m.ctx_index) words s) l
          ∙ ap (λ z. carry_out z words s) (check-fits place name (k + 1) m.ctx_index c e) in
        subst (Answers modules words s) (sym q) (
          of_set-Answers modules words s m c (c.set words m.ctx_index s) f
            (subst (λ z. Fits place name z c) (sym l) (fits-Fits place name k c e)) refl)
    | inr e ↦
        unfit m c f
          (λ g. cc (sym e ∙ Fits-fits place name (k + 1) c (subst (λ z. Fits place name z c) l g)))
          (ap (λ z. carry_out (check place name z c m.ctx_index) words s) l
            ∙ carry_out_unfit place name (k + 1) m.ctx_index c words s e)
  ]

  -- A directive is answered by the first command, in the order of the modules and of each module's
  -- commands, that has its name and is allowed in its place, however many of that name are not. Where
  -- the directive ends as the command wants, with `{` for a block and else with `;`, and the number
  -- of its words is one that the command takes, its `set` is called once with the words and the index
  -- of the module's configuration, and the handler returns NGX_OK if that returns NGX_CONF_OK, else
  -- NGX_ERROR. In all other cases the handler returns NGX_ERROR and calls no command.
  pub handler-Answers :
      (modules : List (Module S)) (words : List Bytes) (s : S)
      → Answers modules (name ∷ words) s (handler modules place name words s)
  handler-Answers modules words s =
      let ps = all_commands modules in
      let n = length (name ∷ words) in
      let ws : List Bytes = name ∷ words in
      subst (Answers modules ws s) (sym (handler-first modules place name words s))
        (elim (first_applicable-FirstOf n ps) [
          | inl (e, a) ↦
              unanswered a
                (ap (λ z. carry_out (judge place name n (any_named place name n ps) z) ws s) e)
          | inr ((m, c), e, f) ↦
              subst (Answers modules ws s)
                (sym
                  (ap (λ z. carry_out (judge place name n (any_named place name n ps) z) ws s) e))
                (carry_out-Answers modules (length words) ws s m c (omega arith) f)
        ])
