-- ===== src/HttpDynamic/Trees/Correct.antt =====
-- The search in the tree finds what the search of every entry finds.
use nginx_toolkit_module.Base.{
  ◌≡◌, refl, sym, ap, ◌∙◌, subst, inl, inr, true, false, Option, none, some, List, [], ◌∷◌, ◌++◌,
  append_assoc, arith, length, All, All-append, All-imp, Option-cases, drop,
}
use nginx_toolkit_module.Text.{Bytes, has}
use nginx_toolkit_module.HttpDynamic.Names.{
  Rel, below, above, same, inside, beyond, rel, is_after, is_before, is_prefix, rel-flip,
  rel-append, rel_refl,
}
use nginx_toolkit_module.HttpDynamic.Location.{LocConf, Entry, is_some}
use nginx_toolkit_module.HttpDynamic.Trees.{
  Queue, nil, Tree, node, Found, again, find_static_location,
}
use nginx_toolkit_module.HttpDynamic.Trees.Flat.{
  flatten, Apart, scan, got, Silent, scan-Silent, scan-Silent_end,
}
use nginx_toolkit_module.HttpDynamic.Trees.Node.{
  find-above, find-below, find-beyond, find-same, find-inside, before-Silent, behind-Silent,
  child-Silent, next-Silent, Apart-not_after,
}
use nginx_toolkit_module.HttpDynamic.Names.{FileNames}

module _ ⦃f : FileNames⦄ where
  pub append-drop : (s u : Bytes) → is_prefix (rel s u) ≡ true → s ++ drop (length s) u ≡ u
  append-drop [] u h = refl
  append-drop (x ∷ s) [] h = cc
  append-drop (x ∷ s) (y ∷ u) h = ground (arith, append-drop s u, f.rank-inj x y)

pub drop-append : (p s : Bytes) → drop (length p) (p ++ s) ≡ s
drop-append [] s = refl
drop-append (x ∷ p) s = drop-append p s

module _ ⦃f : FileNames⦄ where
  -- the tree finds, in what is left of a name that begins with `p`, what the entries give
  abbrev pub Finds : Bytes → Queue → Tree → Type 0
  Finds p q t =
      (u : Bytes) (rv : Found) → find_static_location t u rv ≡ scan rv (p ++ u) (flatten q)

  module _ (p s : Bytes) (before : Queue) (x : Entry) (list behind : Queue) (left right tree : Tree)
      (name : x.name ≡ p ++ s) (clean : has 0 s ≡ false)
      (bare : is_some x.inclusive ≡ false → list ≡ nil)
      (under : All (λ y. rel x.name y.name ≡ inside) (flatten list))
      (after : All (Apart x) (flatten behind))
      (ahead : All (λ y. All (Apart y) (x ∷ (flatten list ++ flatten behind))) (flatten before))
      (finds_left : Finds p before left) (finds_right : Finds p behind right)
      (finds_tree : Finds x.name list tree) (u : Bytes) (rv : Found) where
    abbrev tail : List Entry
    tail = x ∷ (flatten list ++ flatten behind)

    abbrev here : Found
    here = find_static_location (node left right tree x.exact x.inclusive (length s) s) u rv

    abbrev goal : Found
    goal = scan rv (p ++ u) (flatten before ++ tail)

    stands : rel x.name (p ++ u) ≡ rel s u
    stands = ap (λ z. rel z (p ++ u)) name ∙ rel-append p s u

    passed_before : is_after (rel s u) ≡ false → All (Silent (p ++ u)) (flatten before)
    passed_before h =
        All-imp (flatten before) (λ y a. before-Silent x (p ++ u) y a.0 (ap is_after stands ∙ h))
          ahead

    skip_before : is_after (rel s u) ≡ false → goal ≡ scan rv (p ++ u) tail
    skip_before h = scan-Silent (p ++ u) (flatten before) tail rv (passed_before h)

    -- the request's name stands before the entry's
    on_left : is_after (rel s u) ≡ true → find_static_location left u rv ≡ goal
    on_left h =
        let early : is_before (rel (p ++ u) x.name) ≡ true =
          ap is_before (rel-flip x.name (p ++ u)) ∙ ground (arith, stands) in
        let own = behind-Silent x (p ++ u) x (ap is_after (rel_refl x.name)) early in
        let inner =
          All-imp (flatten list) (λ z e. behind-Silent x (p ++ u) z (ap is_after e) early) under in
        let rest =
          All-imp (flatten behind)
            (λ z a. behind-Silent x (p ++ u) z (Apart-not_after x (p ++ u) z a) early) after in
        finds_left u rv
        ∙ sym (
            scan-Silent_end (p ++ u) (flatten before) tail rv
              (own, All-append (Silent (p ++ u)) (flatten list) (flatten behind) inner rest))

    -- it stands behind the entry and its list
    on_right :
        All (Silent (p ++ u)) (x ∷ flatten list)
        → is_after (rel s u) ≡ false
        → find_static_location right u rv ≡ goal
    on_right h k =
        finds_right u rv
        ∙ sym (skip_before k ∙ scan-Silent (p ++ u) (x ∷ flatten list) (flatten behind) rv h)

    at_below : rel s u ≡ below → here ≡ goal
    at_below e =
        let r : rel x.name (p ++ u) ≡ below = stands ∙ e in
        let own : Silent (p ++ u) x = ground (arith, r) in
        let inner =
          All-imp (flatten list) (λ z g. child-Silent x (p ++ u) z g (ap is_prefix r)) under in
        find-below left right tree x.exact x.inclusive s u rv clean e
        ∙ on_right (own, inner) (ap is_after e)

    at_same : rel s u ≡ same → here ≡ goal
    at_same e =
        let r : rel x.name (p ++ u) ≡ same = stands ∙ e in
        find-same left right tree x.exact x.inclusive s u rv clean e
        ∙ sym (skip_before (ap is_after e) ∙ rw (scan, r))

    at_inclusive : rel s u ≡ inside → (c : LocConf) → x.inclusive ≡ some c → here ≡ goal
    at_inclusive e c i =
        let r : rel x.name (p ++ u) ≡ inside = stands ∙ e in
        let rest =
          All-imp (flatten behind)
            (λ z a. next-Silent x (p ++ u) z (ap is_some i) a (ap is_prefix r)) after in
        let name_ : x.name ++ drop (length s) u ≡ p ++ u =
          ap (λ z. z ++ drop (length s) u) name
          ∙ append_assoc p s (drop (length s) u)
          ∙ ap (λ z. p ++ z) (append-drop s u (ap is_prefix e)) in
        let at_x : scan rv (p ++ u) tail
            ≡ scan (got rv x.inclusive) (p ++ u) (flatten list ++ flatten behind) =
          rw (scan, r) in
        find-inside left right tree x.exact x.inclusive s u rv clean e
        ∙ ap
            (λ (o : Option LocConf). elim o as (λ _. Found) [
              | some d ↦ find_static_location tree (drop (length s) u) (again d)
              | none ↦ find_static_location right u rv
            ])
            i
        ∙ finds_tree (drop (length s) u) (again c)
        ∙ ap (λ z. scan (again c) z (flatten list)) name_
        ∙ sym (
            skip_before (ap is_after e)
            ∙ at_x
            ∙ ap (λ o. scan (got rv o) (p ++ u) (flatten list ++ flatten behind)) i
            ∙ scan-Silent_end (p ++ u) (flatten list) (flatten behind) (again c) rest)

    at_exact : rel s u ≡ inside → x.inclusive ≡ none → here ≡ goal
    at_exact e i =
        let r : rel x.name (p ++ u) ≡ inside = stands ∙ e in
        let own : Silent (p ++ u) x = ground (arith, r, i) in
        let inner = subst (λ z. All (Silent (p ++ u)) (flatten z)) (sym (bare (ap is_some i))) tt in
        find-inside left right tree x.exact x.inclusive s u rv clean e
        ∙ ap
            (λ (o : Option LocConf). elim o as (λ _. Found) [
              | some d ↦ find_static_location tree (drop (length s) u) (again d)
              | none ↦ find_static_location right u rv
            ])
            i
        ∙ on_right (own, inner) (ap is_after e)

    by_rel : (r : Rel) → rel s u ≡ r → here ≡ goal
    by_rel below e = at_below e
    by_rel above e =
        find-above left right tree x.exact x.inclusive s u rv clean e ∙ on_left (ap is_after e)
    by_rel same e = at_same e
    by_rel inside e = elim (Option-cases x.inclusive) [
      | inl i ↦ at_exact e i
      | inr (c, i) ↦ at_inclusive e c i
    ]
    by_rel beyond e =
        find-beyond left right tree x.exact x.inclusive s u rv clean e ∙ on_left (ap is_after e)

    pub node-Finds : here ≡ goal
    node-Finds = by_rel (rel s u) refl
