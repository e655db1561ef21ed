-- ===== src/NodePool.antt =====
-- The recycled nodes of ngx_poold.c, which ngx_timerd.c repeats: nodes are
-- allocated from a pool that only grows, and unused ones are chained through `next`. A pointer to
-- a node is its index, in the order of allocation.

pub mod Free
pub mod Tracked
use nginx_toolkit_module.Base.{
  ℕ, ◌+◌, ◌-◌, ◌^◌, Bool, true, false, Option, none, some, List, [], ◌∷◌, ◌++◌, ◌==◌, if◌then◌else◌,
  get_elem?, set, length,
}

-- `content` is what a node holds besides `next`
pub record Node {ℓ} (N : Type ℓ) : Type ℓ where
  pub content : N
  pub next : Option ℕ

pub record NodePool {ℓ} (N : Type ℓ) : Type ℓ where
  pub nodes : List (Node N)
  pub free_node : Option ℕ
  pub nalloc : ℕ
  pub nfree : ℕ

-- `--n` on ngx_uint_t
abbrev pub decrement : ℕ → ℕ
decrement n = if n == 0 then 2 ^ 64 - 1 else n - 1

module _ {ℓ} {N : Type ℓ} where
  pub no_nodes : NodePool N
  no_nodes = record { nodes = []; free_node = none; nalloc = 0; nfree = 0 }

  -- what a node holds, and its `next`
  abbrev pub content_at : NodePool N → ℕ → Option N
  content_at s i = elim (get_elem? s.nodes i) [ none ↦ none | some x ↦ some x.content ]

  abbrev pub next_of : List (Node N) → ℕ → Option (Option ℕ)
  next_of nodes i = elim (get_elem? nodes i) [ none ↦ none | some x ↦ some x.next ]

  abbrev pub zeroed : N → Node N
  zeroed zero_ = record { content = zero_; next = none }

  -- `memory` is whether ngx_pcalloc returns memory, `zero_` a node of zeros; the result is `none`
  -- where the code follows a pointer to no node
  unfoldable pub take_node : N → Bool → NodePool N → Option ℕ → Option (Option ℕ × NodePool N)
  take_node zero_ memory s none =
      if memory
      then some (
        some (length s.nodes),
        record s { nodes = s.nodes ++ (zeroed zero_ ∷ []); nalloc = s.nalloc + 1 },
      )
      else some (none, s)
  take_node zero_ memory s (some n) = elim (get_elem? s.nodes n) [
    | none ↦ none
    | some x ↦ some (
      some n,
      record s {
        nodes = set s.nodes n (zeroed zero_);
        free_node = x.next;
        nfree = decrement s.nfree;
      },
    )
  ]

  unfoldable pub get_node : N → Bool → NodePool N → Option (Option ℕ × NodePool N)
  unfolding take_node
  get_node zero_ memory s = take_node zero_ memory s s.free_node

  pub put_node : Option ℕ → NodePool N → Option (NodePool N)
  put_node none s = some s
  put_node (some n) s = elim (get_elem? s.nodes n) [
    | none ↦ none
    | some x ↦ some (record s {
      nodes = set s.nodes n (record x { next = s.free_node });
      free_node = some n;
      nfree = s.nfree + 1;
    })
  ]

  -- writing to a node's members
  pub write : ℕ → N → NodePool N → Option (NodePool N)
  write n v s = elim (get_elem? s.nodes n) [
    | none ↦ none
    | some x ↦ some (record s { nodes = set s.nodes n (record x { content = v }) })
  ]
