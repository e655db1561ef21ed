-- ===== src/NodePool/Tracked.antt =====
-- Recycled nodes that a map finds by a key, as ngx_poold.c uses them.
use nginx_toolkit_module.Base.{
  ℕ, ◌≡◌, ◌≢◌, refl, sym, ap, ◌∙◌, subst, inl, inr, true, false, Option, none, some, List, [], ◌∷◌,
  ◌==◌, arith, if◌then◌else◌, drop, Bool-cases, if_true, if_false,
}
use nginx_toolkit_module.Map.UintMap.{KeyMap}
use nginx_toolkit_module.Map.Insert.{kept}
use nginx_toolkit_module.NodePool.{NodePool, no_nodes, content_at, get_node, put_node, write}
use nginx_toolkit_module.NodePool.Free.{
  Free, InUse, no_nodes-Free, Taken, get_node-Taken, put_node-Free, write-Free,
}

module _ (m : KeyMap ℕ) {N : Type 0} (key : N → Option ℕ) where
  -- the node that the map holds under a key is in use, and has that key
  pub record Tracked (r : m.Repr) (s : NodePool N) (xs : List ℕ) : Type 0 where
    pub free : Free s xs
    pub used :
        (k n : ℕ)
        → m.find r k ≡ some n
        → InUse s xs n × ((x : N) × (content_at s n ≡ some x) × (key x ≡ some k))

  -- one node has one key
  same_key :
      (s : NodePool N) (n a : ℕ) (x y : N) (k j : ℕ)
      → n ≡ a
      → content_at s n ≡ some x
      → content_at s a ≡ some y
      → key x ≡ some k
      → key y ≡ some j
      → j ≡ k
  same_key s n a x y k j same c c' d d' =
      let e : some x ≡ some y = sym c ∙ ap (λ z. content_at s z) same ∙ c' in
      let f : x ≡ y = cc in let g : some j ≡ some k = sym d' ∙ ap key (sym f) ∙ d in cc g

  -- a node is under one key
  pub one_key :
      (r : m.Repr) (s : NodePool N) (xs : List ℕ) (k j n : ℕ)
      → Tracked r s xs
      → m.find r k ≡ some n
      → m.find r j ≡ some n
      → j ≡ k
  one_key r s xs k j n v e f =
      let (_, (x, c, d)) = v.used k n e in
      let (_, (y, c', d')) = v.used j n f in same_key s n n x y k j refl c c' d d'

  pub Tracked-init : Tracked m.init no_nodes []
  Tracked-init = record { free = no_nodes-Free; used = λ k n e. absurd (cc (m.find-init k)) }

  pub find-insert_new :
      (r : m.Repr) (k n j : ℕ)
      → m.find r k ≡ none
      → m.find (m.insert r k n) j ≡ (if j == k then some n else m.find r j)
  find-insert_new r k n j e =
      m.find-insert r k n j ∙ ap (λ z. if j == k then kept false n z else m.find r j) e

  insert-Tracked :
      (r : m.Repr) (zero_ x : N) (s ns ns' : NodePool N) (xs : List ℕ) (k i : ℕ)
      → Tracked r s xs
      → m.find r k ≡ none
      → key x ≡ some k
      → Taken zero_ s ns xs i
      → Free ns' (drop 1 xs)
      → content_at ns' i ≡ some x
      → ((a : ℕ) → InUse ns (drop 1 xs) a → InUse ns' (drop 1 xs) a)
      → ((a : ℕ) → i ≢ a → content_at ns' a ≡ content_at ns a)
      → Tracked (m.insert r k i) ns' (drop 1 xs)
  insert-Tracked r zero_ x s ns ns' xs k i v new id t f mine keep others = record {
    free = f;
    used = λ j n e.
        let found = sym (find-insert_new r k i j new) ∙ e in
        elim (Bool-cases (j == k)) [
          | inl q ↦
              let same : some i ≡ some n = sym (if_true (some i) (m.find r j) q) ∙ found in
              let key_ : k ≡ j = ground arith in
              let at : i ≡ n = ground arith in
              subst
                (λ z.
                  InUse ns' (drop 1 xs) z
                  × ((y : N) × (content_at ns' z ≡ some y) × (key y ≡ some j)))
                at (keep i t.mine, (x, mine, id ∙ ap some key_))
          | inr q ↦
              let old : m.find r j ≡ some n = sym (if_false (some i) (m.find r j) q) ∙ found in
              let (u, (y, c, d)) = v.used j n old in
              let (o, u', c') = t.others n u in (keep n u', (y, others n o ∙ c' ∙ c, d))
        ];
  }

  -- the node is in use, but not on the map
  abbrev pub Held : m.Repr → NodePool N → List ℕ → ℕ → Type 0
  Held r s xs n = InUse s xs n × ((j : ℕ) → m.find r j ≢ some n)

  -- a node taken, filled in and put into the map under a new key
  pub get_node-Tracked :
      (r : m.Repr) (zero_ x : N) (s : NodePool N) (xs : List ℕ) (k : ℕ)
      → Tracked r s xs
      → m.find r k ≡ none
      → key x ≡ some k
      → (i : ℕ) × (ns ns' : NodePool N) × (get_node zero_ true s ≡ some (some i, ns))
        × (write i x ns ≡ some ns')
        × Tracked (m.insert r k i) ns' (drop 1 xs)
        × (content_at ns' i ≡ some x)
        × ((a : ℕ) → InUse s xs a → (i ≢ a) × (content_at ns' a ≡ content_at s a))
        × ((a : ℕ) → Held r s xs a → Held (m.insert r k i) ns' (drop 1 xs) a)
  get_node-Tracked r zero_ x s xs k v new id =
      let (i, ns, e, t) = get_node-Taken zero_ s xs v.free in
      let (ns', w, f, mine, keep, others) = write-Free ns (drop 1 xs) i x t.free t.mine in
      (
        i,
        ns,
        ns',
        e,
        w,
        insert-Tracked r zero_ x s ns ns' xs k i v new id t f mine keep others,
        mine,
        λ a u. let (o, _, c) = t.others a u in (o, others a o ∙ c),
        λ a (u, out).
            let (o, u', _) = t.others a u in
            (
              keep a u',
              λ j g.
                  let found = sym (find-insert_new r k i j new) ∙ g in
                  elim (Bool-cases (j == k)) [
                    | inl q ↦
                        let same : some i ≡ some a =
                          sym (if_true (some i) (m.find r j) q) ∙ found in
                        o (cc same)
                    | inr q ↦ out j (sym (if_false (some i) (m.find r j) q) ∙ found)
                  ],
            ),
      )

  pub find_deleted :
      (r : m.Repr) (k j n : ℕ)
      → m.find (m.delete r k) j ≡ some n
      → ((j == k) ≡ false) × (m.find r j ≡ some n)
  find_deleted r k j n g =
      let found = sym (m.find-delete r k j) ∙ g in
      elim (Bool-cases (j == k)) [
        | inl q ↦ absurd (cc (if_true none (m.find r j) q))
        | inr q ↦ (q, sym (if_false none (m.find r j) q) ∙ found)
      ]

  pub delete-Tracked :
      (r : m.Repr) (s : NodePool N) (xs : List ℕ) (k : ℕ)
      → Tracked r s xs
      → Tracked (m.delete r k) s xs
  delete-Tracked r s xs k v = record {
    free = v.free;
    used = λ j n g. v.used j n (find_deleted r k j n g).1;
  }

  -- what a deletion leaves off the map
  pub delete-Held :
      (r : m.Repr) (s : NodePool N) (xs : List ℕ) (k n : ℕ)
      → Tracked r s xs
      → m.find r k ≡ some n
      → Held (m.delete r k) s xs n
  delete-Held r s xs k n v e =
      let (u, (x, c, d)) = v.used k n e in
      (
        u,
        λ j g.
            let (apart, old) = find_deleted r k j n g in
            let (_, (y, c', d')) = v.used j n old in
            let one : j ≡ k = same_key s n n x y k j refl c c' d d' in absurd (ground arith),
      )

  -- a node that is not on the map put back
  pub release-Tracked :
      (r : m.Repr) (s : NodePool N) (xs : List ℕ) (n : ℕ)
      → Tracked r s xs
      → Held r s xs n
      → (ns : NodePool N) × (put_node (some n) s ≡ some ns)
        × Tracked r ns (n ∷ xs)
        × ((a : ℕ) → InUse s xs a → n ≢ a → content_at ns a ≡ content_at s a)
        × ((a : ℕ) → n ≢ a → Held r s xs a → Held r ns (n ∷ xs) a)
  release-Tracked r s xs n v (u, out) =
      let (ns, p, f, others) = put_node-Free s xs n v.free u in
      (
        ns,
        p,
        record {
          free = f;
          used = λ j a g.
              let (u', (y, c', d')) = v.used j a g in
              let (u2, c2) = others a u' λ same. out j (g ∙ ap some (sym same)) in
              (u2, (y, c2 ∙ c', d'));
        },
        λ a u' apart. (others a u' apart).1,
        λ a apart (u', out'). ((others a u' apart).0, out'),
      )

  -- a node deleted from the map and put back
  pub put_node-Tracked :
      (r : m.Repr) (s : NodePool N) (xs : List ℕ) (k n : ℕ)
      → Tracked r s xs
      → m.find r k ≡ some n
      → (ns : NodePool N) × (put_node (some n) s ≡ some ns)
        × Tracked (m.delete r k) ns (n ∷ xs)
        × ((a : ℕ) → InUse s xs a → n ≢ a → content_at ns a ≡ content_at s a)
        × ((a : ℕ) → Held r s xs a → Held (m.delete r k) ns (n ∷ xs) a)
  put_node-Tracked r s xs k n v e =
      let w = delete-Tracked r s xs k v in
      let (ns, p, t, contents, others) =
        release-Tracked (m.delete r k) s xs n w (delete-Held r s xs k n v e) in
      (
        ns,
        p,
        t,
        contents,
        λ a (u, out).
            others a (λ same. out k (e ∙ ap some same))
              (u, λ j g. out j (find_deleted r k j a g).1),
      )
