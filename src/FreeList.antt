-- ===== src/FreeList.antt =====
-- Recycled nodes on a singly linked list: what ngx_event_timer_module.c, ngx_rbuf.c,
-- ngx_poold.c and the resolvers keep their unused structures on.
use nginx_toolkit_module.Base.{
  ℕ, ◌≡◌, ◌∙◌, Bool, true, false, ◌||◌, Option, none, some, List, [], ◌∷◌, arith, ◌==◌,
}

abbrev pub has : ℕ → List ℕ → Bool
has a [] = false
has a (x ∷ xs) = x == a || has a xs

abbrev pub Distinct : List ℕ → Type 0
Distinct [] = Unit
Distinct (x ∷ xs) = (has x xs ≡ false) × Distinct xs

-- A pointer is `none` or a node. `link` is a node's `next` field, or `none` where it holds no
-- pointer: from `p` the links lead through the nodes `xs` to NULL.
abbrev pub Chain : (ℕ → Option (Option ℕ)) → Option ℕ → List ℕ → Type 0
Chain link p [] = p ≡ none
Chain link p (x ∷ xs) = (p ≡ some x) × ((q : Option ℕ) × (link x ≡ some q) × Chain link q xs)

-- a chain does not change where the links of its nodes do not
pub Chain-frame :
    (link link' : ℕ → Option (Option ℕ)) (p : Option ℕ) (xs : List ℕ)
    → ((a : ℕ) → has a xs ≡ true → link' a ≡ link a)
    → Chain link p xs
    → Chain link' p xs
Chain-frame link link' p [] same c = c
Chain-frame link link' p (x ∷ xs) same (e, (q, l, c)) = (
  e,
  (q, same x (ground arith) ∙ l, Chain-frame link link' q xs (λ a h. same a (ground arith)) c),
)
