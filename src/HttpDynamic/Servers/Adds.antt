-- ===== src/HttpDynamic/Servers/Adds.antt =====
-- What the names of the servers come to: the keys, their tables, the expressions, and the server at a
-- place.
use nginx_toolkit_module.Base.{
  ℕ, zero, suc, ◌≡◌, ◌≢◌, ◌≤◌, refl, sym, ap, ◌∙◌, subst, ◌⊎◌, inl, inr, Option, none, some, List,
  [], ◌∷◌, ◌++◌, length, arith, Option-cases,
}
use nginx_toolkit_module.Text.{Bytes}
use nginx_toolkit_module.HttpDynamic.Servers.{
  ServerName, Server, Hashes, Keys, Added, added, busy, refused, MainConf, add_names, add_servers,
  table_of, with_regex, regexes_of, Answer, undefined, given, server_of,
}
use nginx_toolkit_module.HttpDynamic.Servers.Tables.{Tables}

-- the names of all servers, in the order of the configuration
abbrev pub all_names : List Server → List ServerName
all_names [] = []
all_names (s ∷ ss) = s.server_names ++ all_names ss

-- the answer of the server at a place, or of what is behind the array
abbrev pub ServerAt : List Server → ℕ → Answer Server → Type 0
ServerAt ss n r =
    ((before : List Server) × (s : Server) × (behind : List Server) × (ss ≡ before ++ (s ∷ behind))
      × (length before ≡ n)
      × (r ≡ given s))
    ⊎ ((length ss ≤ n) × (r ≡ undefined))

module _ (h : Hashes) where
  with_regex-append :
      (xs ys : List ServerName) → with_regex h (xs ++ ys) ≡ with_regex h xs ++ with_regex h ys
  with_regex-append [] ys = refl
  with_regex-append (x ∷ xs) ys = ground (arith, with_regex-append xs ys)

  pub regexes_of-all_names : (ss : List Server) → regexes_of h ss ≡ with_regex h (all_names ss)
  regexes_of-all_names [] = refl
  regexes_of-all_names (s ∷ ss) =
      ap (λ z. with_regex h s.server_names ++ z) (regexes_of-all_names ss)
      ∙ sym (with_regex-append s.server_names (all_names ss))

  pub server_of-ServerAt : (ss : List Server) (n : ℕ) → ServerAt ss n (server_of h ss n)
  server_of-ServerAt [] n = inr (omega arith, refl)
  server_of-ServerAt (s ∷ ss) zero = inl ([], s, ss, refl, refl, refl)
  server_of-ServerAt (s ∷ ss) (suc n) = elim (server_of-ServerAt ss n) [
    | inl (before, x, behind, e, l, r) ↦ inl (s ∷ before, x, behind, ap (λ z. s ∷ z) e, ap suc l, r)
    | inr (l, r) ↦ inr (omega (arith, l), r)
  ]

  -- the names that are no regular expressions are added in their order, and none is refused
  pub data Adds : List ServerName → Keys → Keys → Type 0 where
    no_name : (k : Keys) → Adds [] k k
    a_regex :
        (x : ServerName) (r : ℕ) {xs : List ServerName} {k k' : Keys}
        → x.regex ≡ some r
        → Adds xs k k'
        → Adds (x ∷ xs) k k'
    a_key :
        (x : ServerName) {xs : List ServerName} {k k' : Keys}
        → x.regex ≡ none
        → (h.add_key k x.name x.server).0 ≢ refused
        → Adds xs (h.add_key k x.name x.server).1 k'
        → Adds (x ∷ xs) k k'

  Adds-append :
      {xs ys : List ServerName} {k k1 k2 : Keys}
      → Adds xs k k1
      → Adds ys k1 k2
      → Adds (xs ++ ys) k k2
  Adds-append (no_name k) b = b
  Adds-append (a_regex x r e a) b = a_regex x r e (Adds-append a b)
  Adds-append (a_key x e n a) b = a_key x e n (Adds-append a b)

  add_names-Adds :
      (xs : List ServerName) (k : Keys) (n : ℕ) (k' : Keys) (n' : ℕ)
      → add_names h xs k n ≡ some (k', n')
      → Adds xs k k'
  unfolding add_names
  add_names-Adds [] k n k' n' e = let q : k ≡ k' = cc in subst (Adds [] k) q (no_name k)
  add_names-Adds (x ∷ xs) k n k' n' e = elim (Option-cases x.regex) [
    | inr (r, g) ↦
        let q : add_names h (x ∷ xs) k n ≡ add_names h xs k (suc n) = rw (add_names, g) refl in
        a_regex x r g (add_names-Adds xs k (suc n) k' n' (sym q ∙ e))
    | inl g ↦
        by_added g (h.add_key k x.name x.server).0 refl
          (add_names-Adds xs (h.add_key k x.name x.server).1 n k' n')
  ]
    where
      by_added :
          x.regex ≡ none
          → (a : Added) → (h.add_key k x.name x.server).0 ≡ a
          → (add_names h xs (h.add_key k x.name x.server).1 n ≡ some (k', n')
              → Adds xs (h.add_key k x.name x.server).1 k')
          → Adds (x ∷ xs) k k'
      by_added g refused f ih =
          let q : add_names h (x ∷ xs) k n ≡ none = rw (add_names, g, f) refl in absurd cc
      by_added g added f ih =
          let q : add_names h (x ∷ xs) k n ≡ add_names h xs (h.add_key k x.name x.server).1 n =
            rw (add_names, g, f) refl in
          a_key x g (λ z. cc (sym f ∙ z)) (ih (sym q ∙ e))
      by_added g busy f ih =
          let q : add_names h (x ∷ xs) k n ≡ add_names h xs (h.add_key k x.name x.server).1 n =
            rw (add_names, g, f) refl in
          a_key x g (λ z. cc (sym f ∙ z)) (ih (sym q ∙ e))

  pub add_servers-Adds :
      (ss : List Server) (k : Keys) (n : ℕ) (k' : Keys) (n' : ℕ)
      → add_servers h ss k n ≡ some (k', n')
      → Adds (all_names ss) k k'
  unfolding add_servers
  add_servers-Adds [] k n k' n' e = let q : k ≡ k' = cc in subst (Adds [] k) q (no_name k)
  add_servers-Adds (s ∷ ss) k n k' n' e = elim (Option-cases (add_names h s.server_names k n)) [
    | inl g ↦ let q : add_servers h (s ∷ ss) k n ≡ none = rw (add_servers, g) refl in absurd cc
    | inr ((k1, n1), g) ↦
        let q : add_servers h (s ∷ ss) k n ≡ add_servers h ss k1 n1 = rw (add_servers, g) refl in
        Adds-append (add_names-Adds s.server_names k n k1 n1 g)
          (add_servers-Adds ss k1 n1 k' n' (sym q ∙ e))
  ]

  -- the table of some keys, or none of no keys
  abbrev pub Made : (List (Bytes × ℕ) → Option h.Table) → List (Bytes × ℕ) → Option h.Table → Type 0
  Made make ks t =
      ((ks ≡ []) × (t ≡ none)) ⊎ ((ks ≢ []) × ((x : h.Table) × (make ks ≡ some x) × (t ≡ some x)))

  abbrev pub AllMade : Keys → MainConf h → Type 0
  AllMade k c =
      Made h.hash_init k.keys c.hash
      × Made (λ ks. h.wildcard_init (h.sort_wildcards ks)) k.dns_wc_head c.wc_head
      × Made (λ ks. h.wildcard_init (h.sort_wildcards ks)) k.dns_wc_tail c.wc_tail

  table_of-Made :
      (make : List (Bytes × ℕ) → Option h.Table) (ks : List (Bytes × ℕ)) (t : Option h.Table)
      → table_of h make ks ≡ some t
      → Made make ks t
  unfolding table_of
  table_of-Made make [] t e = inl (refl, cc)
  table_of-Made make (k ∷ ks) t e = elim (Option-cases (make (k ∷ ks))) [
    | inl g ↦ let q : table_of h make (k ∷ ks) ≡ none = rw (table_of, g) refl in absurd cc
    | inr (x, g) ↦
        let q : table_of h make (k ∷ ks) ≡ some (some x) = rw (table_of, g) refl in
        inr (λ z. cc z, (x, g, cc))
  ]

  pub Tables-AllMade : (k : Keys) (c : MainConf h) → Tables h k c → AllMade k c
  Tables-AllMade k c t = (
    table_of-Made h.hash_init k.keys c.hash t.exact,
    table_of-Made (λ ks. h.wildcard_init (h.sort_wildcards ks)) k.dns_wc_head c.wc_head t.head,
    table_of-Made (λ ks. h.wildcard_init (h.sort_wildcards ks)) k.dns_wc_tail c.wc_tail t.tail,
  )
