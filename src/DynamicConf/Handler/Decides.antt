-- ===== src/DynamicConf/Handler/Decides.antt =====
-- What the tests of the handler ask of a command: its name, its place, the directive's form.
use nginx_toolkit_module.Base.{
  ◌≡◌, ◌≤◌, refl, sym, ap, ◌∙◌, ◌⊎◌, inl, inr, Bool, true, false, ◌&&◌, ℕ, ◌+◌, ◌-◌, List, arith,
  if◌then◌else◌, Bool-cases, ltb, get_elem?, suc, zero,
}
use nginx_toolkit_module.Text.{Bytes}
use nginx_toolkit_module.Port.{bytes_eq, bytes_eq-same, same-bytes_eq}
use nginx_toolkit_module.DynamicConf.Token.{Rc, error, ok, block_start, block_done, file_done}
use nginx_toolkit_module.DynamicConf.Handler.{
  Flag, block, any, flag, one_more, two_more, take, Command, Module, chosen, Place, check, count_ok,
  type_has, carry_out, max_args, is_ok, is_block_start, arg_number,
}
use nginx_toolkit_module.DynamicConf.Handler.First.{applies}

-- the numbers of words that a command takes, its name counted: the first of its bits for any
-- number, one value, one or more and two or more decides, else one bit for each number up to 7
pub data Takes (type : Flag → Bool) (n : ℕ) : Type 0 where
  takes_any : type any ≡ true → Takes type n
  takes_flag : type any ≡ false → type flag ≡ true → n ≡ 2 → Takes type n
  takes_one_more :
      type any ≡ false → type flag ≡ false → type one_more ≡ true → 2 ≤ n → Takes type n
  takes_two_more :
      type any ≡ false
      → type flag ≡ false
      → type one_more ≡ false
      → type two_more ≡ true
      → 3 ≤ n
      → Takes type n
  takes_number :
      (k : ℕ)
      → type any ≡ false
      → type flag ≡ false
      → type one_more ≡ false
      → type two_more ≡ false
      → n ≡ k + 1
      → k ≤ 7
      → type (take k) ≡ true
      → Takes type n

take-at :
    (type : Flag → Bool) (k : ℕ) → k ≤ 7 → type_has type (get_elem? arg_number k) ≡ type (take k)
take-at type zero h = refl
take-at type (suc zero) h = refl
take-at type (suc (suc zero)) h = refl
take-at type (suc (suc (suc zero))) h = refl
take-at type (suc (suc (suc (suc zero)))) h = refl
take-at type (suc (suc (suc (suc (suc zero))))) h = refl
take-at type (suc (suc (suc (suc (suc (suc zero)))))) h = refl
take-at type (suc (suc (suc (suc (suc (suc (suc zero))))))) h = refl
take-at type (suc (suc (suc (suc (suc (suc (suc (suc k)))))))) h = absurd (omega (arith, h))

Takes-count_ok : (type : Flag → Bool) (n : ℕ) → Takes type n → count_ok type n ≡ true
unfolding count_ok
Takes-count_ok type n (takes_any a) = ground (arith, a)
Takes-count_ok type n (takes_flag a b e) = ground (arith, a, b, e)
Takes-count_ok type n (takes_one_more a b c l) = ground (arith, a, b, c, l)
Takes-count_ok type n (takes_two_more a b c d l) = ground (arith, a, b, c, d, l)
Takes-count_ok type n (takes_number k a b c d e l t) =
    let low : ltb max_args n ≡ false = ground (arith, e, l) in
    let at : n - 1 ≡ k = omega (arith, e) in
    rw (count_ok, a, b, c, d, low, at) (take-at type k l ∙ t)

count_ok-Takes : (type : Flag → Bool) (k : ℕ) → count_ok type (k + 1) ≡ true → Takes type (k + 1)
unfolding count_ok
count_ok-Takes type k h = elim (Bool-cases (type any)) [
  | inl a ↦ takes_any a
  | inr a ↦ elim (Bool-cases (type flag)) [
    | inl b ↦ takes_flag a b (ground (arith, h, a, b))
    | inr b ↦ elim (Bool-cases (type one_more)) [
      | inl c ↦ takes_one_more a b c (ground (arith, h, a, b, c))
      | inr c ↦ elim (Bool-cases (type two_more)) [
        | inl d ↦ takes_two_more a b c d (ground (arith, h, a, b, c, d))
        | inr d ↦ elim (Bool-cases (ltb max_args (k + 1))) [
          | inl e ↦
              let q : count_ok type (k + 1) ≡ false = rw (count_ok, a, b, c, d, e) refl in absurd cc
          | inr e ↦
              let l : k ≤ 7 = ground (arith, e) in
              let at : (k + 1) - 1 ≡ k = omega arith in
              let q : count_ok type (k + 1) ≡ type_has type (get_elem? arg_number k) =
                rw (count_ok, a, b, c, d, e, at) refl in
              takes_number k a b c d refl l (sym (take-at type k l) ∙ sym q ∙ h)
        ]
      ]
    ]
  ]
]

is_ok-ok : (rc : Rc) → is_ok rc ≡ true → rc ≡ ok
is_ok-ok ok h = refl
is_ok-ok error h = cc
is_ok-ok block_start h = cc
is_ok-ok block_done h = cc
is_ok-ok file_done h = cc

is_block_start-start : (rc : Rc) → is_block_start rc ≡ true → rc ≡ block_start
is_block_start-start block_start h = refl
is_block_start-start ok h = cc
is_block_start-start error h = cc
is_block_start-start block_done h = cc
is_block_start-start file_done h = cc

module _ {S : Type 0} (place : Place) (name : Bytes) where
  -- a command has the directive's name and is allowed in its place
  pub record Applies (p : Module S × Command S) : Type 0 where
    pub named : name ≡ p.1.name
    pub of_module : (p.0.conf_type ≡ true) ⊎ (p.0.type ≡ place.module_type)
    pub in_place : p.1.within place.cmd_type ≡ true

  -- a directive of `n` words has the form of a command: it ends as the command wants, and has a
  -- number of words that the command takes
  pub record Fits (n : ℕ) (c : Command S) : Type 0 where
    pub ending :
        ((c.type block ≡ true) × (place.last ≡ block_start))
        ⊎ ((c.type block ≡ false) × (place.last ≡ ok))
    pub number : Takes c.type n

  pub Applies-applies :
      (n : ℕ) (p : Module S × Command S) → Applies p → applies place name n p ≡ true
  Applies-applies n (m, c) a =
      let e : bytes_eq name c.name ≡ true =
        ap (λ z. bytes_eq name z) (sym a.named) ∙ bytes_eq-same name in
      ground (arith, e, a.of_module, a.in_place)

  pub applies-Applies :
      (n : ℕ) (p : Module S × Command S) → applies place name n p ≡ true → Applies p
  applies-Applies n (m, c) h = record {
    named = same-bytes_eq name c.name (ground (arith, h));
    of_module = ground (arith, h);
    in_place = ground (arith, h);
  }

  -- the tests of the form, in one
  abbrev pub fits : ℕ → Command S → Bool
  fits n c =
      (if c.type block then is_block_start place.last else is_ok place.last) && count_ok c.type n

  pub Fits-fits : (n : ℕ) (c : Command S) → Fits n c → fits n c ≡ true
  Fits-fits n c f = elim f.ending [
    | inl (b, l) ↦ rw (b, l, Takes-count_ok c.type n f.number) refl
    | inr (b, l) ↦ rw (b, l, Takes-count_ok c.type n f.number) refl
  ]

  pub fits-Fits : (k : ℕ) (c : Command S) → fits (k + 1) c ≡ true → Fits (k + 1) c
  fits-Fits k c h =
      let number : Takes c.type (k + 1) = count_ok-Takes c.type k (ground (arith, h)) in
      elim (Bool-cases (c.type block)) [
        | inl b ↦ record {
          ending = inl (b, is_block_start-start place.last (ground (arith, h, b)));
          number = number;
        }
        | inr b ↦ record {
          ending = inr (b, is_ok-ok place.last (ground (arith, h, b)));
          number = number;
        }
      ]

  pub check-fits : (n i : ℕ) (c : Command S) → fits n c ≡ true → check place name n c i ≡ chosen c i
  unfolding check
  check-fits n i c h = ground (arith, h)

  pub carry_out_unfit :
      (n i : ℕ) (c : Command S) (words : List Bytes) (s : S)
      → fits n c ≡ false
      → carry_out (check place name n c i) words s ≡ (error, s)
  unfolding check
  carry_out_unfit n i c words s h = ground (arith, h)
