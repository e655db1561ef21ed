-- ===== src/NodePool/Free.antt =====
-- What taking, putting back and writing a node do to the free nodes and to the nodes in use.
use nginx_toolkit_module.Base.{
  ℕ, zero, suc, ◌+◌, ◌-◌, ◌<◌, ◌≡◌, ◌≢◌, refl, sym, ap, ◌∙◌, inl, inr, true, false, Option, some,
  List, [], ◌∷◌, ◌++◌, ◌==◌, arith, get_elem?, set, length, drop, length-append, length-set,
  get_elem?-set_self, get_elem?-set_ne, Bool-cases, Option-cases, if_false,
}
use nginx_toolkit_module.FreeList.{has, Distinct, Chain, Chain-frame}
use nginx_toolkit_module.NodePool.{
  Node, NodePool, decrement, no_nodes, content_at, next_of, zeroed, get_node, take_node, put_node,
  write,
}

pub lt-length_of_elem {ℓ} :
    {A : Type ℓ} (xs : List A) (i : ℕ) {x : A} → get_elem? xs i ≡ some x → i < length xs
lt-length_of_elem [] i h = absurd (cc)
lt-length_of_elem (y ∷ xs) zero h = omega arith
lt-length_of_elem (y ∷ xs) (suc i) h = omega (arith, lt-length_of_elem xs i h)

pub elem_exists {ℓ} :
    {A : Type ℓ} (xs : List A) (i : ℕ) → i < length xs → (x : A) × (get_elem? xs i ≡ some x)
elem_exists [] i h = absurd (omega arith)
elem_exists (y ∷ xs) zero h = (y, refl)
elem_exists (y ∷ xs) (suc i) h = elem_exists xs i (omega arith)

pub get_elem?-append_left {ℓ} :
    {A : Type ℓ} (xs ys : List A) (i : ℕ) → i < length xs → get_elem? (xs ++ ys) i ≡ get_elem? xs i
get_elem?-append_left [] ys i h = absurd (omega arith)
get_elem?-append_left (x ∷ xs) ys zero h = refl
get_elem?-append_left (x ∷ xs) ys (suc i) h = get_elem?-append_left xs ys i (omega arith)

pub get_elem?-append_last {ℓ} :
    {A : Type ℓ} (xs : List A) (x : A) → get_elem? (xs ++ (x ∷ [])) (length xs) ≡ some x
get_elem?-append_last [] x = refl
get_elem?-append_last (y ∷ xs) x = get_elem?-append_last xs x

ne_of_has : (a i : ℕ) (xs : List ℕ) → has a xs ≡ true → has i xs ≡ false → i ≢ a
ne_of_has a i xs h k e = cc (ap (λ z. has z xs) e)

module _ {ℓ} {N : Type ℓ} where
  -- the nodes `xs` are free: chained in this order, and counted
  pub record Free (s : NodePool N) (xs : List ℕ) : Type ℓ where
    pub chain : Chain (next_of s.nodes) s.free_node xs
    pub distinct : Distinct xs
    pub count : s.nfree ≡ length xs
    pub total : s.nalloc ≡ length s.nodes

  -- the node exists and is not free
  abbrev pub InUse : NodePool N → List ℕ → ℕ → Type 0
  InUse s xs i = (i < length s.nodes) × (has i xs ≡ false)

  pub no_nodes-Free : Free no_nodes []
  unfolding no_nodes
  no_nodes-Free = record { chain = refl; distinct = tt; count = refl; total = refl }

  pub link_exists :
      (nodes : List (Node N)) (i : ℕ) {q : Option ℕ}
      → next_of nodes i ≡ some q
      → (x : Node N) × (get_elem? nodes i ≡ some x) × (x.next ≡ q)
  link_exists nodes i h = elim (Option-cases (get_elem? nodes i)) [
    | inl e ↦ absurd (ground arith)
    | inr (x, e) ↦ (x, e, ground arith)
  ]

  -- free nodes exist
  pub Chain-lt :
      (nodes : List (Node N)) (p : Option ℕ) (xs : List ℕ) (a : ℕ)
      → Chain (next_of nodes) p xs
      → has a xs ≡ true
      → a < length nodes
  Chain-lt nodes p [] a c h = absurd (cc)
  Chain-lt nodes p (x ∷ xs) a (e, (q, l, c)) h = elim (Bool-cases (x == a)) [
    | inl k ↦
        let (y, g, _) = link_exists nodes x l in
        let same : x ≡ a = ground arith in omega (arith, lt-length_of_elem nodes x g, same)
    | inr k ↦ Chain-lt nodes q xs a c (ground arith)
  ]

  pub Chain-set_out :
      (nodes : List (Node N)) (i : ℕ) (y : Node N) (p : Option ℕ) (xs : List ℕ)
      → has i xs ≡ false
      → Chain (next_of nodes) p xs
      → Chain (next_of (set nodes i y)) p xs
  Chain-set_out nodes i y p xs h =
      Chain-frame (next_of nodes) (next_of (set nodes i y)) p xs
        λ a k. rw (next_of, get_elem?-set_ne nodes i a y (ne_of_has a i xs k h))

  pub content_at-set_self :
      (s : NodePool N) (i : ℕ) (y : Node N)
      → i < length s.nodes
      → content_at (record s { nodes = set s.nodes i y }) i ≡ some y.content
  content_at-set_self s i y h = rw (content_at, get_elem?-set_self s.nodes i y h)

  -- a node `i` was taken, and is in use with the nodes that were
  pub record Taken (zero_ : N) (s s' : NodePool N) (xs : List ℕ) (i : ℕ) : Type ℓ where
    pub free : Free s' (drop 1 xs)
    pub mine : InUse s' (drop 1 xs) i
    pub clean : content_at s' i ≡ some zero_
    pub others :
        (a : ℕ)
        → InUse s xs a
        → (i ≢ a) × InUse s' (drop 1 xs) a × (content_at s' a ≡ content_at s a)

  Taken-fresh :
      (zero_ : N) (s : NodePool N)
      → Free s []
      → Taken zero_ s
          (record s { nodes = s.nodes ++ (zeroed zero_ ∷ []); nalloc = s.nalloc + 1 })
          []
          (length s.nodes)
  Taken-fresh zero_ s v =
      let size : length (s.nodes ++ (zeroed zero_ ∷ [])) ≡ length s.nodes + 1 =
        length-append s.nodes (zeroed zero_ ∷ []) in
      record {
        free = record {
          chain = v.chain;
          distinct = tt;
          count = v.count;
          total = omega (arith, v.total, size);
        };
        mine = (omega (arith, size), refl);
        clean = rw (content_at, get_elem?-append_last s.nodes (zeroed zero_));
        others = λ a (h, k). (
          omega arith,
          (omega (arith, size), refl),
          rw (content_at, get_elem?-append_left s.nodes (zeroed zero_ ∷ []) a h),
        );
      }

  Taken-reuse :
      (zero_ : N) (s : NodePool N) (i : ℕ) (xs : List ℕ) (q : Option ℕ)
      → Free s (i ∷ xs)
      → i < length s.nodes
      → Chain (next_of s.nodes) q xs
      → Taken zero_ s
          (record s {
            nodes = set s.nodes i (zeroed zero_);
            free_node = q;
            nfree = decrement s.nfree;
          })
          (i ∷ xs)
          i
  Taken-reuse zero_ s i xs q v h c =
      let size = length-set s.nodes i (zeroed zero_) in
      record {
        free = record {
          chain = Chain-set_out s.nodes i (zeroed zero_) q xs v.distinct.0 c;
          distinct = v.distinct.1;
          count =
              if_false {b = s.nfree == 0} _ (s.nfree - 1) (ground (arith, v.count))
              ∙ omega (arith, v.count);
          total = v.total ∙ sym size;
        };
        mine = (omega (arith, size), v.distinct.0);
        clean = content_at-set_self s i (zeroed zero_) h;
        others = λ a (k, out).
            let n : i ≢ a = ground arith in
            (
              n,
              (omega (arith, size), ground arith),
              rw (content_at, get_elem?-set_ne s.nodes i a (zeroed zero_) n),
            );
      }

  -- where there is memory, a node is taken
  pub get_node-Taken :
      (zero_ : N) (s : NodePool N) (xs : List ℕ)
      → Free s xs
      → (i : ℕ) × (s' : NodePool N) × (get_node zero_ true s ≡ some (some i, s'))
        × Taken zero_ s s' xs i
  unfolding get_node take_node
  get_node-Taken zero_ s [] v = (_, _, ap (take_node zero_ true s) v.chain, Taken-fresh zero_ s v)
  get_node-Taken zero_ s (i ∷ xs) v =
      let (e, (q, l, c)) = v.chain in
      let (x, g, n) = link_exists s.nodes i l in
      (
        _,
        _,
        ap (take_node zero_ true s) e ∙ rw (take_node, g, n),
        Taken-reuse zero_ s i xs q v (lt-length_of_elem s.nodes i g) c,
      )

  -- putting a node in use back
  pub put_node-Free :
      (s : NodePool N) (xs : List ℕ) (i : ℕ)
      → Free s xs
      → InUse s xs i
      → (s' : NodePool N) × (put_node (some i) s ≡ some s')
        × Free s' (i ∷ xs)
        × ((a : ℕ)
            → InUse s xs a
            → i ≢ a
            → InUse s' (i ∷ xs) a × (content_at s' a ≡ content_at s a))
  unfolding put_node
  put_node-Free s xs i v (h, out) =
      let (x, g) = elem_exists s.nodes i h in
      let y : Node N = record x { next = s.free_node } in
      let size = length-set s.nodes i y in
      (
        record s { nodes = set s.nodes i y; free_node = some i; nfree = s.nfree + 1 },
        rw (put_node, g),
        record {
          chain = (
            refl,
            (
              s.free_node,
              rw (next_of, get_elem?-set_self s.nodes i y h),
              Chain-set_out s.nodes i y s.free_node xs out v.chain,
            ),
          );
          distinct = (out, v.distinct);
          count = omega (arith, v.count);
          total = v.total ∙ sym size;
        },
        λ a (k, o) n. (
          (omega (arith, size), ground arith),
          rw (content_at, get_elem?-set_ne s.nodes i a y n),
        ),
      )

  -- writing to a node in use
  pub write-Free :
      (s : NodePool N) (xs : List ℕ) (i : ℕ) (w : N)
      → Free s xs
      → InUse s xs i
      → (s' : NodePool N) × (write i w s ≡ some s')
        × Free s' xs
        × (content_at s' i ≡ some w)
        × ((a : ℕ) → InUse s xs a → InUse s' xs a)
        × ((a : ℕ) → i ≢ a → content_at s' a ≡ content_at s a)
  unfolding write
  write-Free s xs i w v (h, out) =
      let (x, g) = elem_exists s.nodes i h in
      let y : Node N = record x { content = w } in
      let size = length-set s.nodes i y in
      (
        record s { nodes = set s.nodes i y },
        rw (write, g),
        record {
          chain = Chain-set_out s.nodes i y s.free_node xs out v.chain;
          distinct = v.distinct;
          count = v.count;
          total = v.total ∙ sym size;
        },
        content_at-set_self s i y h,
        λ a (k, o). (omega (arith, size), o),
        λ a n. rw (content_at, get_elem?-set_ne s.nodes i a y n),
      )
