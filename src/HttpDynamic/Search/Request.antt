-- ===== src/HttpDynamic/Search/Request.antt =====
-- ngx_http_dynamic_core_find_location on what the end of a server's block made.
use nginx_toolkit_module.Base.{
  ℕ, ◌≡◌, refl, sym, ap, ◌∙◌, subst, inl, inr, Bool, true, false, Option, none, some, List, [], ◌∷◌,
  ◌++◌, All, Bool-cases, Option-cases, if_false,
}
use nginx_toolkit_module.Text.{Bytes}
use nginx_toolkit_module.HttpDynamic.Location.{LocConf, Entry, is_some}
use nginx_toolkit_module.HttpDynamic.Trees.{Found, declined, again, ok, fault, find_static_location}
use nginx_toolkit_module.HttpDynamic.Trees.Build.{Middle}
use nginx_toolkit_module.HttpDynamic.Trees.Nest.{Plain}
use nginx_toolkit_module.HttpDynamic.Trees.Best.{Best, at_name, at_prefix, nowhere}
use nginx_toolkit_module.HttpDynamic.Trees.Join.{Pairwise, NotTwice}
use nginx_toolkit_module.HttpDynamic.Search.{
  Locations, Exec, matched, no_matched, failed, Located, found, regex_error, regex_loop,
  with_regexes, find_location, finish,
}
use nginx_toolkit_module.HttpDynamic.Search.Sort.{QueueSort}
use nginx_toolkit_module.HttpDynamic.Search.Order.{Clean}
use nginx_toolkit_module.HttpDynamic.Search.Finish.{
  entries, statics, regexes, somes, unfinished, finish-Best,
}
use nginx_toolkit_module.HttpDynamic.Names.{FileNames}

-- a static location after which the regular expressions are tried
abbrev pub Open : Found → Type 0
Open declined = Unit
Open (again c) = c.noregex ≡ false
Open (ok c) = ⊥
Open fault = ⊥

module _ ⦃f : FileNames⦄ where
  module _ (exec : ℕ → Bytes → Exec) where
    -- what the expression of a location gives
    abbrev pub Gives : Bytes → Exec → LocConf → Type 0
    Gives u e c = (r : ℕ) × (c.regex ≡ some r) × (exec r u ≡ e)

    -- the first location whose expression does not say no
    pub record First (u : Bytes) (e : Exec) (cs : List LocConf) (c : LocConf) : Type 0 where
      pub before : List LocConf
      pub behind : List LocConf
      pub whole : cs ≡ before ++ c ∷ behind
      pub passed : All (Gives u no_matched) before
      pub gives : Gives u e c

    pub data Chosen (u : Bytes) (cs : List LocConf) (rc : Found) (r : Located) : Type 0 where
      by_name : (c : LocConf) → rc ≡ ok c → r ≡ found (ok c) → Chosen u cs rc r
      by_prefix :
          (c : LocConf) → rc ≡ again c → c.noregex ≡ true → r ≡ found (again c) → Chosen u cs rc r
      by_regex :
          (c : LocConf) → Open rc → First u matched cs c → r ≡ found (ok c) → Chosen u cs rc r
      broken : (c : LocConf) → Open rc → First u failed cs c → r ≡ regex_error → Chosen u cs rc r
      by_rest : Open rc → All (Gives u no_matched) cs → r ≡ found rc → Chosen u cs rc r

    First-cons :
        (u : Bytes) (e : Exec) (cs : List LocConf) (c d : LocConf)
        → Gives u no_matched d
        → First u e cs c
        → First u e (d ∷ cs) c
    First-cons u e cs c d g f = record {
      before = d ∷ f.before;
      behind = f.behind;
      whole = ap (λ z. d ∷ z) f.whole;
      passed = (g, f.passed);
      gives = f.gives;
    }

    Chosen-cons :
        (u : Bytes) (cs : List LocConf) (rc : Found) (r : Located) (d : LocConf)
        → Open rc
        → Gives u no_matched d
        → Chosen u cs rc r
        → Chosen u (d ∷ cs) rc r
    Chosen-cons u cs rc r d o g (by_name c e f) = by_name c e f
    Chosen-cons u cs rc r d o g (by_prefix c e n f) = by_prefix c e n f
    Chosen-cons u cs rc r d o g (by_regex c o' f e) =
        by_regex c o (First-cons u matched cs c d g f) e
    Chosen-cons u cs rc r d o g (broken c o' f e) = broken c o (First-cons u failed cs c d g f) e
    Chosen-cons u cs rc r d o g (by_rest o' p e) = by_rest o (g, p) e

    -- every location of the array has an expression
    abbrev HasRegex : LocConf → Type 0
    HasRegex c = is_some c.regex ≡ true

    regexes-HasRegex : (cs : List LocConf) → All HasRegex (regexes cs)
    regexes-HasRegex [] = tt
    regexes-HasRegex (c ∷ cs) = elim (Bool-cases (is_some c.regex)) [
      | inl e ↦ rw e (e, regexes-HasRegex cs)
      | inr e ↦ rw e (regexes-HasRegex cs)
    ]

    abbrev next_of : LocConf → List LocConf → Bytes → Found → Exec → Located
    next_of c cs u rc e = elim e [
      | matched ↦ found (ok c)
      | no_matched ↦ regex_loop exec (somes cs) u rc
      | failed ↦ regex_error
    ]

    regex_loop-next_of :
        (u : Bytes) (rc : Found) (c : LocConf) (cs : List LocConf) (r : ℕ) (e : Exec)
        → c.regex ≡ some r
        → exec r u ≡ e
        → regex_loop exec (somes (c ∷ cs)) u rc ≡ next_of c cs u rc e
    unfolding regex_loop
    regex_loop-next_of u rc c cs r e h x =
        ap
          (λ (o : Option ℕ). elim o as (λ _. Located) [
            | none ↦ found fault
            | some r' ↦ next_of c cs u rc (exec r' u)
          ])
          h
        ∙ ap (next_of c cs u rc) x

    regex_loop-Chosen :
        (u : Bytes) (rc : Found) (cs : List LocConf)
        → Open rc
        → All HasRegex cs
        → Chosen u cs rc (regex_loop exec (somes cs) u rc)
    unfolding regex_loop
    regex_loop-Chosen u rc [] o h = by_rest o tt refl
    regex_loop-Chosen u rc (c ∷ cs) o (hc, h) = elim (Option-cases c.regex) [
      | inl e ↦ absurd (cc (ap is_some e))
      | inr (r, e) ↦ by_exec r e (exec r u) refl (regex_loop-Chosen u rc cs o h)
    ]
      where
        here : (e : Exec) → Gives u e c → First u e (c ∷ cs) c
        here e g = record { before = []; behind = cs; whole = refl; passed = tt; gives = g }

        by_exec :
            (r : ℕ)
            → c.regex ≡ some r
            → (e : Exec) → exec r u ≡ e
            → Chosen u cs rc (regex_loop exec (somes cs) u rc)
            → Chosen u (c ∷ cs) rc (regex_loop exec (somes (c ∷ cs)) u rc)
        by_exec r e matched x ih =
            by_regex c o (here matched (r, e, x)) (regex_loop-next_of u rc c cs r matched e x)
        by_exec r e failed x ih =
            broken c o (here failed (r, e, x)) (regex_loop-next_of u rc c cs r failed e x)
        by_exec r e no_matched x ih =
            subst (Chosen u (c ∷ cs) rc) (sym (regex_loop-next_of u rc c cs r no_matched e x))
              (Chosen-cons u cs rc (regex_loop exec (somes cs) u rc) c o (r, e, x) ih)

    with_regexes-Chosen :
        (u : Bytes) (xs : List Entry) (cs : List LocConf) (rc : Found)
        → Best declined u xs rc
        → All HasRegex cs
        → Chosen u cs rc (with_regexes exec (somes cs) u rc)
    unfolding with_regexes
    with_regexes-Chosen u xs cs declined b h = regex_loop-Chosen u declined cs tt h
    with_regexes-Chosen u xs cs (ok c) b h = by_name c refl refl
    with_regexes-Chosen u xs cs fault b h = no_fault b
      where
        no_fault : Best declined u xs fault → Chosen u cs fault (found fault)
        no_fault (at_name c e m) = cc
        no_fault (at_prefix n c e m p l w) = cc
        no_fault (nowhere e l w) = cc
    with_regexes-Chosen u xs cs (again c) b h = elim (Bool-cases c.noregex) [
      | inl e ↦ by_prefix c refl e (rw e refl)
      | inr e ↦
          subst (Chosen u cs (again c)) (sym (if_false _ _ e))
            (regex_loop-Chosen u (again c) cs e h)
    ]

  -- For a server's locations with NUL-free names, of which the static ones have names of less than
  -- 256 bytes and are not there twice, where memory is given, and whatever the sort, the middle and
  -- the regular expressions are: the end of the block succeeds, and a search of a request's name
  -- takes the exact location of that name, else a longest prefix location if it is marked so, else
  -- the first location in the order of the configuration whose expression matches, else the longest
  -- prefix location, if there is one; it fails where an expression fails before one matches.
  pub find_location-Chosen :
      (qs : QueueSort) (mid : Middle) (memory : ℕ → Bytes → Bool) (cs : List LocConf)
      → ((n : ℕ) (x : Bytes) → memory n x ≡ true)
      → All Clean (entries cs)
      → All Plain (statics cs)
      → Pairwise NotTwice (statics cs)
      → (l : Locations) × (finish qs.sort true mid.middle memory (unfinished (entries cs))
          ≡ (true, l))
        × ((exec : ℕ → Bytes → Exec) (u : Bytes)
            → (rc : Found) × Best declined u (statics cs) rc
              × Chosen exec u (regexes cs) rc (find_location exec l u))
  unfolding find_location
  find_location-Chosen qs mid memory cs given clean plain once =
      let (l, e, r, best) = finish-Best qs mid memory cs given clean plain once in
      (
        l,
        e,
        λ exec u.
            let rc = find_static_location l.static_locations u declined in
            (
              rc,
              best u,
              subst (λ z. Chosen exec u (regexes cs) rc (with_regexes exec z u rc)) (sym r)
                  (with_regexes-Chosen exec u (statics cs) (regexes cs) rc (best u)
                    (regexes-HasRegex exec cs)),
            ),
      )
