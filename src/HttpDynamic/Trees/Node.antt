-- ===== src/HttpDynamic/Trees/Node.antt =====
-- One node of the search tree, and the entries that the search may pass.
use nginx_toolkit_module.Base.{
  ◌<◌, ◌≡◌, ap, ◌∙◌, inl, inr, true, false, Option, none, some, arith, length, Bool-cases, drop,
  ltb, ◌==◌, lt, eq, gt,
}
use nginx_toolkit_module.Text.{Bytes, has}
use nginx_toolkit_module.HttpDynamic.Names.{
  Rel, below, above, same, inside, beyond, rel, is_after, is_before, is_prefix, rel-flip,
  filename_cmp-cut, length-rel, lesser, filename_cmp,
}
use nginx_toolkit_module.HttpDynamic.Names.Order.{
  after-not_prefix, below-not_prefix, before-not_same, apart-not_prefix, child-not_prefix,
}
use nginx_toolkit_module.HttpDynamic.Location.{LocConf, Entry, is_some}
use nginx_toolkit_module.HttpDynamic.Trees.{Tree, node, Found, again, hit, find_static_location}
use nginx_toolkit_module.HttpDynamic.Trees.Flat.{Apart, Silent}
use nginx_toolkit_module.HttpDynamic.Names.{FileNames}

module _ ⦃f : FileNames⦄ where
  module _ (left right tree : Tree) (exact inclusive : Option LocConf) (s u : Bytes) (rv : Found)
      (clean : has 0 s ≡ false) where
    abbrev here : Found
    here = find_static_location (node left right tree exact inclusive (length s) s) u rv

    compared :
        (r : Rel)
        → rel s u ≡ r
        → filename_cmp u s (lesser (length u) (length s))
          ≡ elim r [ below ↦ gt | above ↦ lt | same ↦ eq | inside ↦ eq | beyond ↦ eq ]
    compared r e = filename_cmp-cut u s clean ∙ ground (arith, rel-flip s u)

    pub find-above : rel s u ≡ above → here ≡ find_static_location left u rv
    unfolding find_static_location
    find-above e = rw (find_static_location, compared above e)

    pub find-below : rel s u ≡ below → here ≡ find_static_location right u rv
    unfolding find_static_location
    find-below e = rw (find_static_location, compared below e)

    pub find-beyond : rel s u ≡ beyond → here ≡ find_static_location left u rv
    unfolding find_static_location
    find-beyond e =
        let h : length u < length s = (length-rel s u).2 e in
        let a : ltb (length s) (length u) ≡ false = ground arith in
        let b : (length u == length s) ≡ false = ground arith in
        rw (find_static_location, compared beyond e, a, b)

    pub find-same : rel s u ≡ same → here ≡ hit exact inclusive
    unfolding find_static_location
    find-same e =
        let h : length s ≡ length u = (length-rel s u).0 e in
        let a : ltb (length s) (length u) ≡ false = ground arith in
        let b : (length u == length s) ≡ true = ground arith in
        rw (find_static_location, compared same e, a, b)

    pub find-inside :
        rel s u ≡ inside
        → here ≡ elim inclusive [
          | some c ↦ find_static_location tree (drop (length s) u) (again c)
          | none ↦ find_static_location right u rv
        ]
    unfolding find_static_location
    find-inside e =
        let h : length s < length u = (length-rel s u).1 e in
        let a : ltb (length s) (length u) ≡ true = ground arith in
        rw (find_static_location, compared inside e, a)

  -- what stands before or behind `x` is passed where the request's name stands otherwise
  module _ (x : Entry) (u : Bytes) where
    pub before-Silent : (y : Entry) → Apart y x → is_after (rel x.name u) ≡ false → Silent u y
    before-Silent y a h = elim (Bool-cases (is_some y.inclusive)) [
      | inl i ↦
          let b : rel y.name x.name ≡ below = ground arith in
          ground (arith, below-not_prefix y.name x.name u b h)
      | inr i ↦
          let b : is_before (rel y.name x.name) ≡ true = ground arith in
          ground (arith, before-not_same y.name x.name u b h)
    ]

    pub behind-Silent :
        (z : Entry)
        → is_after (rel x.name z.name) ≡ false
        → is_before (rel u x.name) ≡ true
        → Silent u z
    behind-Silent z a h = ground (arith, after-not_prefix u x.name z.name h a)

    pub child-Silent :
        (z : Entry) → rel x.name z.name ≡ inside → is_prefix (rel x.name u) ≡ false → Silent u z
    child-Silent z e h = ground (arith, child-not_prefix x.name z.name u (ap is_prefix e) h)

    pub next-Silent :
        (z : Entry)
        → is_some x.inclusive ≡ true
        → Apart x z
        → is_prefix (rel x.name u) ≡ true
        → Silent u z
    next-Silent z i a h =
        let b : rel x.name z.name ≡ below = ground arith in
        ground (arith, apart-not_prefix x.name z.name u b h)

    pub Apart-not_after : (z : Entry) → Apart x z → is_after (rel x.name z.name) ≡ false
    Apart-not_after z a = ground arith
