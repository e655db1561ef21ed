-- ===== src/Map/Keys.antt =====
-- The hash and comparison functions that ngx_map.c offers: ngx_uint_t, ngx_int_t and ngx_str_t
-- keys. nginx's ngx_hash_key and ngx_memn2cmp are parameters.
use nginx_toolkit_module.Base.{
  ℕ, ◌-◌, ◌%◌, ◌^◌, ◌<◌, Ordering, lt, eq, gt, ◌≡◌, Bool, true, false, arith, ltb, if◌then◌else◌,
}
use nginx_toolkit_module.Int.{ℤ, pos, negsuc, ltb_int}
use nginx_toolkit_module.Map.Sorted.{IsOrder}
use nginx_toolkit_module.Map.Find.{rank}

abbrev pub word_mod : ℕ
word_mod = 2 ^ 64

-- ngx_uint_t and ngx_rbtree_key_t have the same width
unfoldable pub hash_uint : ℕ → ℕ
hash_uint key = key

unfoldable pub cmp_uint : ℕ → ℕ → Ordering
cmp_uint key1 key2 = if ltb key1 key2 then lt else if ltb key2 key1 then gt else eq

-- the conversion of a signed number to ngx_rbtree_key_t
unfoldable pub hash_int : ℤ → ℕ
hash_int (pos n) = n % word_mod
hash_int (negsuc n) = word_mod - 1 - n % word_mod

unfoldable pub cmp_int : ℤ → ℤ → Ordering
cmp_int key1 key2 = if ltb_int key1 key2 then lt else if ltb_int key2 key1 then gt else eq

-- the sign of ngx_memn2cmp's result
abbrev pub cmp_str {ℓ} : {S : Type ℓ} → (S → S → ℤ) → S → S → Ordering
cmp_str memn2cmp key1 key2 =
    let rc = memn2cmp key1 key2 in
    if ltb_int rc (pos 0) then lt else if ltb_int (pos 0) rc then gt else eq

pub cmp_uint-IsOrder : IsOrder cmp_uint
unfolding cmp_uint
cmp_uint-IsOrder = record {
  rank_refl = λ a. ground arith;
  eq_of_rank = λ a b. ground arith;
  lt_of_gt = λ a b. ground arith;
  gt_of_lt = λ a b. ground arith;
  lt_trans = λ a b c. ground arith;
}

pub cmp_int-IsOrder : IsOrder cmp_int
unfolding cmp_int
cmp_int-IsOrder = record {
  rank_refl = λ a. ground arith;
  eq_of_rank = λ a b. ground arith;
  lt_of_gt = λ a b. ground arith;
  gt_of_lt = λ a b. ground arith;
  lt_trans = λ a b c. ground arith;
}

-- With ngx_uint_t keys the nodes stand in the numeric order of the keys.
pub rank-uint : (a b : ℕ) → rank hash_uint cmp_uint a b ≡ cmp_uint a b
unfolding hash_uint cmp_uint
rank-uint a b = ground arith

abbrev pub IsInt : ℤ → Type 0
IsInt (pos n) = n < 2 ^ 63
IsInt (negsuc n) = n < 2 ^ 63

abbrev pub same_sign : ℤ → ℤ → Bool
same_sign (pos a) (pos b) = true
same_sign (negsuc a) (negsuc b) = true
same_sign _ _ = false

-- With 64-bit ngx_int_t keys the nodes stand in numeric order among keys of one sign, and every
-- negative key stands behind every other key.
pub rank-int :
    (a b : ℤ)
    → IsInt a
    → IsInt b
    → rank hash_int cmp_int a b
      ≡ (if same_sign a b then cmp_int a b else if ltb_int a (pos 0) then gt else lt)
unfolding hash_int cmp_int
rank-int (pos a) (pos b) h k = ground arith
rank-int (pos a) (negsuc b) h k = ground arith
rank-int (negsuc a) (pos b) h k = ground arith
rank-int (negsuc a) (negsuc b) h k = ground arith
