-- ===== src/HttpDynamic/Trees/Flat.antt =====
-- The entries of a queue in their order, and a search through all of them.
use nginx_toolkit_module.Base.{
  ℕ, suc, ◌+◌, ◌<◌, ◌≡◌, refl, ap, Bool, true, false, not, Option, none, some, List, [], ◌∷◌, ◌++◌,
  ◌^◌, arith, if◌then◌else◌, length, All,
}
use nginx_toolkit_module.Text.{Bytes, has}
use nginx_toolkit_module.HttpDynamic.Names.{
  Rel, below, above, same, inside, beyond, rel, is_below, is_before, is_prefix,
}
use nginx_toolkit_module.HttpDynamic.Names.Order.{child-below}
use nginx_toolkit_module.HttpDynamic.Location.{LocConf, Entry, is_some}
use nginx_toolkit_module.HttpDynamic.Trees.{Queue, nil, cons, Found, again, hit}
use nginx_toolkit_module.HttpDynamic.Names.{FileNames}

abbrev pub flatten : Queue → List Entry
flatten nil = []
flatten (cons x list rest) = x ∷ (flatten list ++ flatten rest)

abbrev pub count : Queue → ℕ
count nil = 0
count (cons x list rest) = suc (count list + count rest)

-- the search of every entry: one of the request's name ends it, an inclusive one whose name the
-- request's goes on from is the best so far
abbrev pub got : Found → Option LocConf → Found
got rv none = rv
got rv (some c) = again c

module _ ⦃f : FileNames⦄ where
  abbrev pub scan : Found → Bytes → List Entry → Found
  scan rv u [] = rv
  scan rv u (x ∷ xs) = elim (rel x.name u) [
    | same ↦ hit x.exact x.inclusive
    | inside ↦ scan (got rv x.inclusive) u xs
    | below ↦ scan rv u xs
    | above ↦ scan rv u xs
    | beyond ↦ scan rv u xs
  ]

-- an entry that the search passes
abbrev pub quiet : Rel → Bool → Bool
quiet same b = false
quiet inside b = not b
quiet below b = true
quiet above b = true
quiet beyond b = true

module _ ⦃f : FileNames⦄ where
  abbrev pub Silent : Bytes → Entry → Type 0
  Silent u y = quiet (rel y.name u) (is_some y.inclusive) ≡ true

  pub scan-Silent :
      (u : Bytes) (xs ys : List Entry) (rv : Found)
      → All (Silent u) xs
      → scan rv u (xs ++ ys) ≡ scan rv u ys
  scan-Silent u [] ys rv h = refl
  scan-Silent u (x ∷ xs) ys rv h =
      ground (arith, h.0, scan-Silent u xs ys rv h.1, scan-Silent u xs ys (got rv x.inclusive) h.1)

  scan-Silent_all :
      (u : Bytes) (ys : List Entry) (rv : Found) → All (Silent u) ys → scan rv u ys ≡ rv
  scan-Silent_all u [] rv h = refl
  scan-Silent_all u (y ∷ ys) rv h =
      ground
        (arith, h.0, scan-Silent_all u ys rv h.1, scan-Silent_all u ys (got rv y.inclusive) h.1)

  pub scan-Silent_end :
      (u : Bytes) (xs ys : List Entry) (rv : Found)
      → All (Silent u) ys
      → scan rv u (xs ++ ys) ≡ scan rv u xs
  scan-Silent_end u [] ys rv h = scan-Silent_all u ys rv h
  scan-Silent_end u (x ∷ xs) ys rv h =
      ground (arith, scan-Silent_end u xs ys rv h, scan-Silent_end u xs ys (got rv x.inclusive) h)

  -- `x` stands before `z`, and `z` does not go on from an inclusive `x`
  abbrev pub apart : Entry → Entry → Bool
  apart x z =
      if is_some x.inclusive then is_below (rel x.name z.name) else is_before (rel x.name z.name)

  abbrev pub Apart : Entry → Entry → Type 0
  Apart x z = apart x z ≡ true

  -- Names begin with `p`, are in order, and go on by less than 256 bytes; the list of an entry holds
  -- what goes on from it, and only inclusive entries have one.
  abbrev pub Good : Bytes → Queue → Type 0
  Good p nil = Unit
  Good p (cons x list rest) =
      ((s : Bytes) × (x.name ≡ p ++ s) × (length s < 2 ^ 8) × (has 0 s ≡ false))
      × (is_some x.inclusive ≡ false → list ≡ nil)
      × All (λ y. rel x.name y.name ≡ inside) (flatten list)
      × Good x.name list
      × All (Apart x) (flatten rest)
      × Good p rest

  -- what an entry of a list is apart from
  pub inner-Apart :
      (x y z : Entry)
      → is_some x.inclusive ≡ true
      → rel x.name y.name ≡ inside
      → Apart x z
      → Apart y z
  inner-Apart x y z i e h =
      let b : rel x.name z.name ≡ below = ground arith in
      let c = child-below x.name y.name z.name b (ap is_prefix e) in ground (arith, c)
