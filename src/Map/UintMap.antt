-- ===== src/Map/UintMap.antt =====
-- What a client with ngx_uint_t keys relies on: the interface `KeyMap`, and ngx_map as a value of
-- it. The clients of this repository insert with `covered` 0.
use nginx_toolkit_module.Base.{
  ℕ, ◌≡◌, sym, ap, ◌∙◌, false, Option, none, some, arith, ◌==◌, if◌then◌else◌,
}
use nginx_toolkit_module.Map.{Tree, leaf, MapNode, Map, Rbtree, init, insert, delete}
use nginx_toolkit_module.Map.Sorted.{choose}
use nginx_toolkit_module.Map.Find.{rank, IsValid, contents, get, get-contents}
use nginx_toolkit_module.Map.Update.{delete-IsValid, contents-delete}
use nginx_toolkit_module.Map.Insert.{kept, insert-IsValid, contents-insert}
use nginx_toolkit_module.Map.Keys.{hash_uint, cmp_uint, cmp_uint-IsOrder}

abbrev pub one_if {ℓ} : {A : Type ℓ} → Option A → ℕ
one_if none = 0
one_if (some _) = 1

pub record KeyMap (V : Type 0) : Type 1 where
  pub Repr : Type 0
  pub init : Repr
  pub find : Repr → ℕ → Option V
  pub insert : Repr → ℕ → V → Repr
  pub delete : Repr → ℕ → Repr
  pub find-init : (k : ℕ) → find init k ≡ none
  pub find-insert :
      (m : Repr) (k : ℕ) (v : V) (j : ℕ)
      → find (insert m k v) j ≡ (if j == k then kept false v (find m k) else find m j)
  pub find-delete : (m : Repr) (k j : ℕ) → find (delete m k) j ≡ (if j == k then none else find m j)

module _ {V : Type 0} (rb : Rbtree (MapNode ℕ V)) where
  abbrev uint_map : Tree (MapNode ℕ V) → Map ℕ V
  uint_map t = record { root = t; hash = hash_uint; cmp = cmp_uint }

  abbrev UintMap : Type 0
  UintMap = (t : Tree (MapNode ℕ V)) × IsValid (uint_map t)

  choose-uint :
      {A : Type 0} (j k : ℕ) (x y : A)
      → choose (rank hash_uint cmp_uint j k) x y ≡ (if j == k then x else y)
  unfolding cmp_uint hash_uint
  choose-uint j k x y = ground arith

  init-IsValid : IsValid (init {V = V} hash_uint cmp_uint)
  unfolding init
  init-IsValid = record { order = cmp_uint-IsOrder; sorted = tt; keyed = tt }

  -- Every map that ngx_map_init, ngx_map_insert and ngx_map_delete make with ngx_uint_t keys is
  -- a finite map by ngx_map_find.
  pub key_map : KeyMap V
  unfolding init insert delete
  key_map = record {
    Repr = UintMap;
    init = (leaf, init-IsValid);
    find = λ m k. get (uint_map m.0) k;
    insert = λ m k v.
        ((insert rb (uint_map m.0) k v false).root, insert-IsValid rb (uint_map m.0) k v false m.1);
    delete = λ m k. ((delete rb (uint_map m.0) k).root, delete-IsValid rb (uint_map m.0) k m.1);
    find-init = λ k. get-contents init-IsValid k;
    find-insert = λ m k v j.
        get-contents (insert-IsValid rb (uint_map m.0) k v false m.1) j
        ∙ contents-insert rb (uint_map m.0) k v false j m.1
        ∙ choose-uint j k _ _
        ∙ ap (λ z. if j == k then kept false v z else contents (uint_map m.0) j)
            (sym (get-contents m.1 k))
        ∙ ap (λ z. if j == k then kept false v (get (uint_map m.0) k) else z)
            (sym (get-contents m.1 j));
    find-delete = λ m k j.
        get-contents (delete-IsValid rb (uint_map m.0) k m.1) j
        ∙ contents-delete rb (uint_map m.0) k j m.1
        ∙ choose-uint j k _ _
        ∙ ap (λ z. if j == k then none else z) (sym (get-contents m.1 j));
  }
