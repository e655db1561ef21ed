-- ===== src/HttpDynamic/Servers/Ready.antt =====
-- ngx_http_dynamic_core_init_virtual_servers, and the server of a request behind it.
use nginx_toolkit_module.Base.{
  ℕ, zero, suc, ◌+◌, ◌≡◌, refl, sym, ap, ◌∙◌, inl, inr, Bool, true, false, Option, none, some, List,
  [], ◌∷◌, arith, length, length-append, Bool-cases,
}
use nginx_toolkit_module.HttpDynamic.Location.{is_some}
use nginx_toolkit_module.HttpDynamic.Servers.{
  ServerName, Server, Keys, Hashes, no_keys, MainConf, Init, add_names, add_servers, table_of,
  with_regex, regexes_of, init_regex, failed_init, init_tail, init_head, init_hash,
  init_virtual_servers,
}

module _ (h : Hashes) where
  add_names-count :
      (xs : List ServerName) (k : Keys) (n : ℕ) (k' : Keys) (n' : ℕ)
      → add_names h xs k n ≡ some (k', n')
      → n' ≡ n + length (with_regex h xs)
  unfolding add_names
  add_names-count [] k n k' n' e = ground (arith, e)
  add_names-count (x ∷ xs) k n k' n' e = elim (Bool-cases (is_some x.regex)) [
    | inl r ↦
        let ih = add_names-count xs k (suc n) k' n' (ground (arith, e, r)) in ground (arith, r, ih)
    | inr r ↦
        let ih = add_names-count xs (h.add_key k x.name x.server).1 n k' n' in
        ground (arith, r, ih, e)
  ]

  add_servers-count :
      (ss : List Server) (k : Keys) (n : ℕ) (k' : Keys) (n' : ℕ)
      → add_servers h ss k n ≡ some (k', n')
      → n' ≡ n + length (regexes_of h ss)
  unfolding add_servers
  add_servers-count [] k n k' n' e = ground (arith, e)
  add_servers-count (s ∷ ss) k n k' n' e =
      by_names (add_names h s.server_names k n) refl e (λ k1 n1. add_servers-count ss k1 n1 k' n')
    where
      by_names :
          (o : Option (Keys × ℕ))
          → add_names h s.server_names k n ≡ o
          → (elim o as (λ _. Option (Keys × ℕ)) [
            | none ↦ none
            | some (k1, n1) ↦ add_servers h ss k1 n1
          ])
            ≡ some (k', n')
          → ((k1 : Keys) (n1 : ℕ)
              → add_servers h ss k1 n1 ≡ some (k', n')
              → n' ≡ n1 + length (regexes_of h ss))
          → n' ≡ n + length (regexes_of h (s ∷ ss))
      by_names none e f ih = cc
      by_names (some (k1, n1)) e f ih = omega (
        arith,
        add_names-count s.server_names k n k1 n1 e,
        ih k1 n1 f,
        length-append (with_regex h s.server_names) (regexes_of h ss),
      )

  -- a configuration before its names are read
  abbrev pub Fresh : MainConf h → Type 0
  Fresh c = (c.nregex ≡ 0) × (c.regex ≡ [])

  -- the servers are as before, the array holds the names with regular expressions in their order,
  -- and the pool is gone
  pub record Ready (c : MainConf h) (i : Init h) : Type 0 where
    pub gone : i.temp ≡ false
    pub servers : i.conf.servers ≡ c.servers
    pub nregex : i.conf.nregex ≡ length (regexes_of h c.servers)
    pub regex : i.conf.regex ≡ regexes_of h c.servers

  no_regexes_left : (xs : List ServerName) → 0 ≡ length xs → [] ≡ xs
  no_regexes_left [] e = refl
  no_regexes_left (x ∷ xs) e = absurd (omega (arith, e))

  abbrev Readies : (MainConf h → Init h) → ℕ → Type 0
  Readies f n =
      (c : MainConf h)
      → Fresh c
      → n ≡ length (regexes_of h c.servers)
      → (f c).ok_ ≡ true
      → Ready c (f c)

  init_regex-Ready : (memory : Bool) (n : ℕ) → Readies (init_regex h memory n) n
  unfolding init_regex
  init_regex-Ready memory zero c (a, b) e o = record {
    gone = refl;
    servers = refl;
    nregex = a ∙ e;
    regex = b ∙ no_regexes_left (regexes_of h c.servers) e;
  }
  init_regex-Ready true (suc n) c f e o = record {
    gone = refl;
    servers = refl;
    nregex = e;
    regex = refl;
  }
  init_regex-Ready false (suc n) c f e o = cc

  -- a table that is made first
  table-Ready :
      (n : ℕ) (t : Option (Option h.Table)) (f : MainConf h → Init h)
      (set : Option h.Table → MainConf h → MainConf h)
      → ((x : Option h.Table) (c : MainConf h) → Fresh c → Fresh (set x c))
      → ((x : Option h.Table) (c : MainConf h) → (set x c).servers ≡ c.servers)
      → Readies f n
      → Readies (λ c. elim t [ none ↦ failed_init h c | some x ↦ f (set x c) ]) n
  table-Ready n none f set k s r c a e o = cc
  table-Ready n (some x) f set k s r c a e o =
      let i = r (set x c) (k x c a) (e ∙ ap (λ z. length (regexes_of h z)) (sym (s x c))) o in
      record {
        gone = i.gone;
        servers = i.servers ∙ s x c;
        nregex = i.nregex ∙ ap (λ z. length (regexes_of h z)) (s x c);
        regex = i.regex ∙ ap (regexes_of h) (s x c);
      }

  init_tail-Ready : (memory : Bool) (k : Keys) (n : ℕ) → Readies (init_tail h memory k n) n
  unfolding init_tail
  init_tail-Ready memory k n =
      table-Ready n (table_of h (λ ks. h.wildcard_init (h.sort_wildcards ks)) k.dns_wc_tail)
        (init_regex h memory n) (λ x c. record c { wc_tail = x }) (λ x c f. f) (λ x c. refl)
        (init_regex-Ready memory n)

  init_head-Ready : (memory : Bool) (k : Keys) (n : ℕ) → Readies (init_head h memory k n) n
  unfolding init_head
  init_head-Ready memory k n =
      table-Ready n (table_of h (λ ks. h.wildcard_init (h.sort_wildcards ks)) k.dns_wc_head)
        (init_tail h memory k n) (λ x c. record c { wc_head = x }) (λ x c f. f) (λ x c. refl)
        (init_tail-Ready memory k n)

  init_hash-Ready : (memory : Bool) (k : Keys) (n : ℕ) → Readies (init_hash h memory k n) n
  unfolding init_hash
  init_hash-Ready memory k n =
      table-Ready n (table_of h h.hash_init k.keys) (init_head h memory k n)
        (λ x c. record c { hash = x }) (λ x c f. f) (λ x c. refl) (init_head-Ready memory k n)

  pub init-Ready :
      (pool array memory : Bool) (c : MainConf h)
      → Fresh c
      → (init_virtual_servers h pool array memory c).ok_ ≡ true
      → Ready c (init_virtual_servers h pool array memory c)
  unfolding init_virtual_servers
  init-Ready false array memory c f o = cc
  init-Ready true false memory c f o = cc
  init-Ready true true memory c f o = by_keys (add_servers h c.servers no_keys 0) refl o
    where
      by_keys :
          (r : Option (Keys × ℕ))
          → add_servers h c.servers no_keys 0 ≡ r
          → (elim r as (λ _. Init h) [
            | none ↦ record { ok_ = false; temp = true; conf = c }
            | some (k, n) ↦ init_hash h memory k n c
          ]).ok_
            ≡ true
          → Ready c (elim r as (λ _. Init h) [
            | none ↦ record { ok_ = false; temp = true; conf = c }
            | some (k, n) ↦ init_hash h memory k n c
          ])
      by_keys none e q = cc
      by_keys (some (k, n)) e q =
          init_hash-Ready memory k n c f
            (omega (arith, add_servers-count c.servers no_keys 0 k n e)) q
