-- ===== src/HttpDynamic/Trees/Join.antt =====
-- Sorted entries joined: an exact and an inclusive location of one name share an entry.
use nginx_toolkit_module.Base.{
  ◌≡◌, refl, sym, ap, ◌∙◌, subst, inl, inr, true, false, not, Option, some, List, [], ◌∷◌, arith,
  length, Bool-cases, All, All-imp, ◌||◌, ◌&&◌, ◌==◌,
}
use nginx_toolkit_module.Text.{Bytes, has}
use nginx_toolkit_module.HttpDynamic.Names.{
  same, rel, is_before, is_same, eq_of_same, filename_cmp-same, length-rel,
}
use nginx_toolkit_module.HttpDynamic.Names.Order.{before_trans}
use nginx_toolkit_module.HttpDynamic.Location.{Entry, is_some}
use nginx_toolkit_module.HttpDynamic.Trees.{same_name, join_from}
use nginx_toolkit_module.HttpDynamic.Trees.Nest.{Before, Ordered, Plain}
use nginx_toolkit_module.HttpDynamic.Trees.Best.{Full, Keeps}
use nginx_toolkit_module.HttpDynamic.Names.{FileNames}

abbrev pub Pairwise : (Entry → Entry → Type 0) → List Entry → Type 0
Pairwise R [] = Unit
Pairwise R (x ∷ xs) = All (R x) xs × Pairwise R xs

module _ ⦃f : FileNames⦄ where
  -- the order of the sorted queue: by name, and of one name the exact location first
  abbrev pub InOrder : Entry → Entry → Type 0
  InOrder x y =
      (is_before (rel x.name y.name)
        || is_same (rel x.name y.name) && (is_some x.exact || not (is_some y.exact)))
      ≡ true

  -- not two locations of one kind and name
  abbrev pub NotTwice : Entry → Entry → Type 0
  NotTwice x y =
      (is_same (rel x.name y.name)
        && (is_some x.exact && is_some y.exact || is_some x.inclusive && is_some y.inclusive))
      ≡ false

  pub record Joins (xs : List Entry) (r : Option (List Entry)) : Type 0 where
    pub entries : List Entry
    pub made : r ≡ some entries
    pub ordered : Ordered entries
    pub full : All Full entries
    pub plain : All Plain entries
    pub keeps : Keeps xs entries
    pub behind :
        (w : Bytes)
        → All (λ y. is_before (rel w y.name) ≡ true) xs
        → All (λ y. is_before (rel w y.name) ≡ true) entries

  same_name-same :
      (x y : Entry) → has 0 x.name ≡ false → same_name x y ≡ is_same (rel x.name y.name)
  same_name-same x y h = elim (Bool-cases (length x.name == length y.name)) [
    | inl e ↦
        let l : length x.name ≡ length y.name = ground arith in
        let s = filename_cmp-same x.name y.name l h in
        let (a, b, c) = length-rel x.name y.name in ground (arith, s, b, c)
    | inr e ↦ let (a, b, c) = length-rel x.name y.name in ground (arith, a)
  ]

  -- the next entry has the name of the first
  module _ (x y : Entry) (ys : List Entry) (name : rel x.name y.name ≡ same)
      (bare : is_some x.inclusive ≡ false) (only : is_some y.exact ≡ false) where
    abbrev pub joined : Entry
    joined = record x { inclusive = y.inclusive }

    same_text : x.name ≡ y.name
    same_text = eq_of_same x.name y.name name

    pub joined-Keeps : (zs : List Entry) → Keeps (joined ∷ ys) zs → Keeps (x ∷ y ∷ ys) zs
    joined-Keeps zs k = record {
      exact_to = λ n c h. elim (k.exact_to n c h) [ inl e ↦ inl e | inr m ↦ inr (inr m) ];
      exact_from = λ n c h. elim h [
        | inl e ↦ k.exact_from n c (inl e)
        | inr m ↦ elim m [
          | inl (_, e) ↦ absurd (cc (ap is_some e))
          | inr m' ↦ k.exact_from n c (inr m')
        ]
      ];
      inclusive_to = λ n c h. elim (k.inclusive_to n c h) [
        | inl (e, i) ↦ inr (inl (sym same_text ∙ e, i))
        | inr m ↦ inr (inr m)
      ];
      inclusive_from = λ n c h. elim h [
        | inl (_, i) ↦ absurd (cc (ap is_some i))
        | inr m ↦ elim m [
          | inl (e, i) ↦ k.inclusive_from n c (inl (same_text ∙ e, i))
          | inr m' ↦ k.inclusive_from n c (inr m')
        ]
      ];
    }

    pub joined-NotTwice : (z : Entry) → NotTwice x z → NotTwice y z → NotTwice joined z
    joined-NotTwice z a b =
        let r : rel y.name z.name ≡ rel x.name z.name = ap (λ n. rel n z.name) (sym same_text) in
        ground (arith, r)

pub Keeps-cons : (x : Entry) (xs zs : List Entry) → Keeps xs zs → Keeps (x ∷ xs) (x ∷ zs)
Keeps-cons x xs zs k = record {
  exact_to = λ n c h. elim h [ inl e ↦ inl e | inr m ↦ inr (k.exact_to n c m) ];
  exact_from = λ n c h. elim h [ inl e ↦ inl e | inr m ↦ inr (k.exact_from n c m) ];
  inclusive_to = λ n c h. elim h [ inl e ↦ inl e | inr m ↦ inr (k.inclusive_to n c m) ];
  inclusive_from = λ n c h. elim h [ inl e ↦ inl e | inr m ↦ inr (k.inclusive_from n c m) ];
}

module _ ⦃f : FileNames⦄ where
  -- what is behind `y` is behind what `y` is behind
  InOrder-Before : (x y z : Entry) → Before x y → InOrder y z → Before x z
  InOrder-Before x y z b h = elim (Bool-cases (is_before (rel y.name z.name))) [
    | inl k ↦ before_trans x.name y.name z.name b k
    | inr k ↦
        let s : rel y.name z.name ≡ same = ground arith in
        subst (λ n. is_before (rel x.name n) ≡ true) (eq_of_same y.name z.name s) b
  ]

All-zip :
    {P Q R : Entry → Type 0} (xs : List Entry)
    → ((x : Entry) → P x → Q x → R x)
    → All P xs
    → All Q xs
    → All R xs
All-zip [] f a b = tt
All-zip (x ∷ xs) f (a, as_) (b, bs) = (f x a b, All-zip xs f as_ bs)

module _ ⦃f : FileNames⦄ where
  -- Of entries in the order of their names, an exact location before an inclusive one of its name,
  -- with a location each, NUL-free names of less than 256 bytes, and no two locations of one kind
  -- and name, the joining succeeds: its result is in strict order of the names, and has the same
  -- exact and inclusive locations under the same names.
  pub join_from-Joins :
      (x : Entry) (ys : List Entry)
      → All Plain (x ∷ ys)
      → All Full (x ∷ ys)
      → Pairwise InOrder (x ∷ ys)
      → Pairwise NotTwice (x ∷ ys)
      → Joins (x ∷ ys) (join_from x ys)
  unfolding join_from
  join_from-Joins x [] p f o t = record {
    entries = x ∷ [];
    made = refl;
    ordered = (tt, tt);
    full = f;
    plain = p;
    keeps = record {
      exact_to = λ n c h. h;
      exact_from = λ n c h. h;
      inclusive_to = λ n c h. h;
      inclusive_from = λ n c h. h;
    };
    behind = λ w h. h;
  }
  join_from-Joins x (y ∷ ys) (px, (py, p)) (fx, (fy, f)) ((oxy, ox), (oy, o)) ((txy, tx), (ty, t)) =
      let sn = same_name-same x y px.1 in
      elim (Bool-cases (is_same (rel x.name y.name))) [
        | inl s ↦
            let r : rel x.name y.name ≡ same = ground arith in
            let only : is_some y.exact ≡ false = ground arith in
            let bare : is_some x.inclusive ≡ false = ground arith in
            let full_ : Full (joined x y ys r bare only) = ground arith in
            let k =
              join_from-Joins (record x { inclusive = y.inclusive }) ys (px, p) (full_, f) (ox, o)
                (All-zip ys (joined-NotTwice x y ys r bare only) tx ty, t) in
            let one : same_name x y ≡ true = sn ∙ s in
            let two : (is_some x.exact && is_some y.exact
                  || is_some x.inclusive && is_some y.inclusive)
                ≡ false =
              ground arith in
            record {
              entries = k.entries;
              made = rw (join_from, one, two) k.made;
              ordered = k.ordered;
              full = k.full;
              plain = k.plain;
              keeps = joined-Keeps x y ys r bare only k.entries k.keeps;
              behind = λ w (a, (b, c)). k.behind w (a, c);
            }
        | inr s ↦
            let b : Before x y = ground arith in
            let k = join_from-Joins y ys (py, p) (fy, f) (oy, o) (ty, t) in
            let one : same_name x y ≡ false = sn ∙ s in
            record {
              entries = x ∷ k.entries;
              made = rw (join_from, one, k.made);
              ordered =
                  (k.behind x.name (b, All-imp ys (λ z h. InOrder-Before x y z b h) oy), k.ordered);
              full = (fx, k.full);
              plain = (px, k.plain);
              keeps = Keeps-cons x (y ∷ ys) k.entries k.keeps;
              behind = λ w (a, h). (a, k.behind w h);
            }
      ]
