-- ===== src/HttpDynamic/Trees/Build.antt =====
-- The tree of a queue.
use nginx_toolkit_module.Base.{
  ℕ, zero, suc, ◌+◌, ◌-◌, ◌%◌, ◌<◌, ◌≤◌, ◌≡◌, refl, sym, ap, ◌∙◌, subst, inl, inr, Bool, true,
  Option, some, ◌++◌, ◌^◌, arith, length, Bool-cases, drop, if◌then◌else◌, ◌==◌, length-append,
  if_true, if_false,
}
use nginx_toolkit_module.Text.{Bytes}
use nginx_toolkit_module.HttpDynamic.Location.{Entry}
use nginx_toolkit_module.HttpDynamic.Trees.{
  Queue, nil, cons, Tree, leaf, node, size, split, create_tree, tree_at, node_of, or_leaf,
  find_static_location,
}
use nginx_toolkit_module.HttpDynamic.Trees.Flat.{count, Good, scan}
use nginx_toolkit_module.HttpDynamic.Trees.Split.{split-Parts}
use nginx_toolkit_module.HttpDynamic.Trees.Correct.{Finds, node-Finds, drop-append}
use nginx_toolkit_module.HttpDynamic.Names.{FileNames}

-- ngx_queue_middle: an entry of the queue, and not the first one of several
pub record Middle : Type 0 where
  pub middle : ℕ → ℕ
  pub middle-lt : (n : ℕ) → middle (suc n) < suc n
  pub middle_zero : (n : ℕ) → middle (suc n) ≡ 0 → n ≡ 0

module _ ⦃f : FileNames⦄ where
  pub leaf-Finds : (p : Bytes) → Finds p nil leaf
  unfolding find_static_location
  leaf-Finds p u rv = refl

empty_of_size : (q : Queue) → size q ≡ 0 → q ≡ nil
empty_of_size nil h = refl
empty_of_size (cons x list rest) h = absurd (omega arith)

suc_of_pos : (n : ℕ) → 0 < n → (k : ℕ) × (n ≡ suc k)
suc_of_pos zero h = absurd (omega arith)
suc_of_pos (suc k) h = (k, refl)

module _ ⦃f : FileNames⦄ where
  module _ (mid : Middle) (memory : ℕ → Bytes → Bool)
      (given : (n : ℕ) (x : Bytes) → memory n x ≡ true) where
    abbrev pub build : ℕ → ℕ → Queue → Option Tree
    build = create_tree mid.middle memory

    -- the tree is made, and finds what the entries of the queue give
    unfoldable pub Built : ℕ → Bytes → Queue → Type 0
    Built fuel p q = (t : Tree) × (build fuel (length p) q ≡ some t) × Finds p q t

    Leafed : ℕ → Bytes → Queue → Type 0
    Leafed fuel p q = (t : Tree) × (or_leaf (build fuel (length p)) q ≡ some t) × Finds p q t

    -- the part behind an entry, where there is none before it
    skip_right :
        (f : Queue → Option Tree) (n k : ℕ) (behind : Queue)
        → mid.middle (suc n) ≡ k
        → suc n ≡ suc (k + size behind)
        → (if k == 0 then some leaf else or_leaf f behind) ≡ or_leaf f behind
    skip_right f n k behind e h = elim (Bool-cases (k == 0)) [
      | inl z ↦
          let k0 : k ≡ 0 = ground arith in
          let n0 : n ≡ 0 = mid.middle_zero n (e ∙ k0) in
          let b : behind ≡ nil = empty_of_size behind (omega (arith, h, n0, k0)) in
          if_true (some leaf) (or_leaf f behind) z ∙ sym (ap (or_leaf f) b)
      | inr z ↦ if_false (some leaf) (or_leaf f behind) z
    ]

    node_lem :
        (fuel : ℕ) (p : Bytes) (x : Entry) (before behind list : Queue) (left right tree : Tree)
        → or_leaf (build fuel (length p)) before ≡ some left
        → (if size before == 0 then some leaf else or_leaf (build fuel (length p)) behind)
          ≡ some right
        → or_leaf (build fuel (length p + (length x.name - length p))) list ≡ some tree
        → tree_at mid.middle memory (build fuel) (length p) (some (before, x, list, behind))
          ≡ some (
              node left right tree x.exact x.inclusive
                ((length x.name - length p) % 2 ^ 8)
                (drop (length p) x.name))
    unfolding tree_at node_of
    node_lem fuel p x before behind list left right tree le re te =
        rw (tree_at, given, le, re, te, node_of)

    -- the node of the entry that the queue is split at
    step_lem :
        (fuel : ℕ) (p s : Bytes) (q before : Queue) (x : Entry) (list behind : Queue)
        (left right tree : Tree)
        → split (mid.middle (size q)) q ≡ some (before, x, list, behind)
        → x.name ≡ p ++ s
        → length s < 2 ^ 8
        → or_leaf (build fuel (length p)) before ≡ some left
        → (if size before == 0 then some leaf else or_leaf (build fuel (length p)) behind)
          ≡ some right
        → or_leaf (build fuel (length x.name)) list ≡ some tree
        → build (suc fuel) (length p) q
          ≡ some (node left right tree x.exact x.inclusive (length s) s)
    unfolding create_tree
    step_lem fuel p s q before x list behind left right tree e name short le re te =
        let long : length x.name ≡ length p + length s = ap length name ∙ length-append p s in
        let len : length x.name - length p ≡ length s = omega (arith, long) in
        let whole : length p + (length x.name - length p) ≡ length x.name = omega (arith, long) in
        let text : drop (length p) x.name ≡ s = ap (drop (length p)) name ∙ drop-append p s in
        let tree' : or_leaf (build fuel (length p + (length x.name - length p))) list ≡ some tree =
          ap (λ z. or_leaf (build fuel z) list) whole ∙ te in
        ap (tree_at mid.middle memory (build fuel) (length p)) e
        ∙ node_lem fuel p x before behind list left right tree le re tree'
        ∙ ap
            (λ z.
              some (node left right tree x.exact x.inclusive (z % 2 ^ 8) (drop (length p) x.name)))
            len
        ∙ ap (λ z. some (node left right tree x.exact x.inclusive z (drop (length p) x.name)))
            (omega (arith, short))
        ∙ ap (λ z. some (node left right tree x.exact x.inclusive (length s) z)) text

    or_leaf-Leafed :
        (fuel : ℕ) (p : Bytes) (q : Queue) → (0 < size q → Built fuel p q) → Leafed fuel p q
    unfolding Built Leafed
    or_leaf-Leafed fuel p nil f = (leaf, refl, leaf-Finds p)
    or_leaf-Leafed fuel p (cons x list rest) f = f (omega arith)

    -- Where memory is given, of a queue that is not empty and is `Good p`, with as many rounds as it
    -- has entries, ngx_http_dynamic_core_create_locations_tree makes a tree, whatever the middle is;
    -- in the tree the search finds, in what a request's name has behind `p`, and whatever it found
    -- before, what a search of every entry of the queue and its lists, in their order, finds.
    pub create_tree-Built :
        (fuel : ℕ) (p : Bytes) (q : Queue) → count q ≤ fuel → 0 < size q → Good p q → Built fuel p q
    unfolding create_tree Built Leafed
    create_tree-Built zero p nil h k g = absurd (omega arith)
    create_tree-Built zero p (cons x list rest) h k g = absurd (omega arith)
    create_tree-Built (suc fuel) p q h k g =
        let (n, sz) = suc_of_pos (size q) k in
        let i = mid.middle (size q) in
        let lt : i < size q = subst (λ z. mid.middle z < z) (sym sz) (mid.middle-lt n) in
        let (before, x, list, behind, e, parts) = split-Parts p i q lt g in
        let ((s, name, short, clean), bare, under, inner, after, good_behind) = parts.good in
        let (left, le, lf) = or_leaf-Leafed fuel p before (λ h'.
          create_tree-Built fuel p before (omega (arith, parts.counts)) h' parts.good_before) in
        let (right, re, rf) =
          or_leaf-Leafed fuel p behind
            (λ h'. create_tree-Built fuel p behind (omega (arith, parts.counts)) h' good_behind) in
        let (tree, te, tf) =
          or_leaf-Leafed fuel x.name list
            (λ h'. create_tree-Built fuel x.name list (omega (arith, parts.counts)) h' inner) in
        let at : size before ≡ i = parts.at in
        let skip =
          skip_right (build fuel (length p)) n (size before) behind
            (ap mid.middle (sym sz) ∙ sym at)
            (sym sz ∙ parts.sizes ∙ ap (λ z. suc (z + size behind)) (sym at)) in
        (
          node left right tree x.exact x.inclusive (length s) s,
          step_lem fuel p s q before x list behind left right tree e name short le (skip ∙ re) te,
          λ u rv.
              node-Finds p s before x list behind left right tree name clean bare under after
                parts.apart_before lf rf tf u rv
              ∙ ap (scan rv (p ++ u)) (sym parts.whole),
        )
