-- ===== src/HttpDynamic/Servers/Tables.antt =====
-- The tables that ngx_http_dynamic_core_init_virtual_servers makes of the keys.
use nginx_toolkit_module.Base.{
  ℕ, zero, suc, ◌≡◌, refl, sym, ap, ◌∙◌, Bool, true, false, Option, none, some, List,
}
use nginx_toolkit_module.Text.{Bytes}
use nginx_toolkit_module.HttpDynamic.Servers.{
  Keys, Hashes, no_keys, MainConf, Init, add_servers, table_of, init_regex, failed_init, init_tail,
  init_head, init_hash, init_virtual_servers,
}

module _ (h : Hashes) where
  abbrev pub wildcards : List (Bytes × ℕ) → Option (Option h.Table)
  wildcards ks = table_of h (λ xs. h.wildcard_init (h.sort_wildcards xs)) ks

  -- a table for each kind of key that there is
  pub record Tables (k : Keys) (c : MainConf h) : Type 0 where
    pub exact : table_of h h.hash_init k.keys ≡ some c.hash
    pub head : wildcards k.dns_wc_head ≡ some c.wc_head
    pub tail : wildcards k.dns_wc_tail ≡ some c.wc_tail

  init_regex_keeps :
      (memory : Bool) (n : ℕ) (c : MainConf h)
      → ((init_regex h memory n c).conf.hash ≡ c.hash)
        × ((init_regex h memory n c).conf.wc_head ≡ c.wc_head)
        × ((init_regex h memory n c).conf.wc_tail ≡ c.wc_tail)
  unfolding init_regex
  init_regex_keeps memory zero c = (refl, refl, refl)
  init_regex_keeps true (suc n) c = (refl, refl, refl)
  init_regex_keeps false (suc n) c = (refl, refl, refl)

  init_tail_lem :
      (memory : Bool) (k : Keys) (n : ℕ) (c : MainConf h)
      → (init_tail h memory k n c).ok_ ≡ true
      → ((init_tail h memory k n c).conf.hash ≡ c.hash)
        × ((init_tail h memory k n c).conf.wc_head ≡ c.wc_head)
        × (wildcards k.dns_wc_tail ≡ some ((init_tail h memory k n c).conf.wc_tail))
  unfolding init_tail
  init_tail_lem memory k n c = by_table (wildcards k.dns_wc_tail)
    where
      by_table :
          (t : Option (Option h.Table))
          → let i : Init h = elim t [
            | none ↦ failed_init h c
            | some x ↦ init_regex h memory n (record c { wc_tail = x })
          ] in
            i.ok_ ≡ true
            → (i.conf.hash ≡ c.hash) × (i.conf.wc_head ≡ c.wc_head) × (t ≡ some i.conf.wc_tail)
      by_table none o = cc
      by_table (some x) o =
          let (a, b, d) = init_regex_keeps memory n (record c { wc_tail = x }) in
          (a, b, ap some (sym d))

  init_head_lem :
      (memory : Bool) (k : Keys) (n : ℕ) (c : MainConf h)
      → (init_head h memory k n c).ok_ ≡ true
      → ((init_head h memory k n c).conf.hash ≡ c.hash)
        × (wildcards k.dns_wc_head ≡ some ((init_head h memory k n c).conf.wc_head))
        × (wildcards k.dns_wc_tail ≡ some ((init_head h memory k n c).conf.wc_tail))
  unfolding init_head
  init_head_lem memory k n c = by_table (wildcards k.dns_wc_head)
    where
      by_table :
          (t : Option (Option h.Table))
          → let i : Init h = elim t [
            | none ↦ failed_init h c
            | some x ↦ init_tail h memory k n (record c { wc_head = x })
          ] in
            i.ok_ ≡ true
            → (i.conf.hash ≡ c.hash)
              × (t ≡ some i.conf.wc_head)
              × (wildcards k.dns_wc_tail ≡ some i.conf.wc_tail)
      by_table none o = cc
      by_table (some x) o =
          let (a, b, d) = init_tail_lem memory k n (record c { wc_head = x }) o in
          (a, ap some (sym b), d)

  init_hash-Tables :
      (memory : Bool) (k : Keys) (n : ℕ) (c : MainConf h)
      → (init_hash h memory k n c).ok_ ≡ true
      → Tables k (init_hash h memory k n c).conf
  unfolding init_hash
  init_hash-Tables memory k n c = by_table (table_of h h.hash_init k.keys) refl
    where
      by_table :
          (t : Option (Option h.Table))
          → table_of h h.hash_init k.keys ≡ t
          → let i : Init h = elim t [
            | none ↦ failed_init h c
            | some x ↦ init_head h memory k n (record c { hash = x })
          ] in
            i.ok_ ≡ true → Tables k i.conf
      by_table none e o = cc
      by_table (some x) e o =
          let (a, b, d) = init_head_lem memory k n (record c { hash = x }) o in
          record { exact = e ∙ ap some (sym a); head = b; tail = d }

  pub init-Tables :
      (pool array memory : Bool) (c : MainConf h)
      → (init_virtual_servers h pool array memory c).ok_ ≡ true
      → (k : Keys) × (n : ℕ) × (add_servers h c.servers no_keys 0 ≡ some (k, n))
        × Tables k (init_virtual_servers h pool array memory c).conf
  unfolding init_virtual_servers
  init-Tables false array memory c o = cc
  init-Tables true false memory c o = cc
  init-Tables true true memory c o = by_keys (add_servers h c.servers no_keys 0) o
    where
      by_keys :
          (r : Option (Keys × ℕ))
          → let i : Init h = elim r [
            | none ↦ record { ok_ = false; temp = true; conf = c }
            | some (k, n) ↦ init_hash h memory k n c
          ] in
            i.ok_ ≡ true → (k : Keys) × (n : ℕ) × (r ≡ some (k, n)) × Tables k i.conf
      by_keys none q = cc
      by_keys (some (k, n)) q = (k, n, refl, init_hash-Tables memory k n c q)

  abbrev pub is_none {ℓ} : {A : Type ℓ} → Option A → Bool
  is_none none = true
  is_none (some x) = false
