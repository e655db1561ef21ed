-- ===== src/HttpDynamic/Servers/Request.antt =====
-- The server of a request, behind ngx_http_dynamic_core_init_virtual_servers.
use nginx_toolkit_module.Base.{
  ℕ, suc, ◌≡◌, ◌≢◌, refl, sym, ap, ◌∙◌, subst, ◌⊎◌, inl, inr, Bool, true, false, Option, none, some,
  List, [], ◌∷◌, ◌++◌, length, All, Option-cases,
}
use nginx_toolkit_module.Text.{Bytes}
use nginx_toolkit_module.HttpDynamic.Search.{Exec, matched, no_matched, failed}
use nginx_toolkit_module.HttpDynamic.Servers.{
  ServerName, Server, Hashes, Keys, no_keys, Virtual, server_at, no_server, server_error, bad_read,
  Answer, null, undefined, MainConf, Init, with_regex, regexes_of, init_virtual_servers,
  regex_servers, find_virtual_server, server_of, get_srv,
}
use nginx_toolkit_module.HttpDynamic.Servers.Adds.{
  all_names, regexes_of-all_names, Adds, add_servers-Adds, AllMade, Tables-AllMade, ServerAt,
  server_of-ServerAt,
}
use nginx_toolkit_module.HttpDynamic.Servers.Ready.{Fresh, init-Ready}
use nginx_toolkit_module.HttpDynamic.Servers.Tables.{init-Tables}

module _ (h : Hashes) (exec : ℕ → Bytes → Exec) where
  -- what the expression of a name gives
  abbrev pub Gives : Bytes → Exec → ServerName → Type 0
  Gives u e x = (r : ℕ) × (x.regex ≡ some r) × (exec r u ≡ e)

  -- a name that is no regular expression, or one that says no
  abbrev pub Passed : Bytes → ServerName → Type 0
  Passed u x = (x.regex ≡ none) ⊎ Gives u no_matched x

  -- the first name whose expression does not say no
  pub record First (u : Bytes) (e : Exec) (xs : List ServerName) (x : ServerName) : Type 0 where
    pub before : List ServerName
    pub behind : List ServerName
    pub whole : xs ≡ before ++ x ∷ behind
    pub passed : All (Passed u) before
    pub gives : Gives u e x

  -- what the expressions give: the server of the first one that matches
  pub data Tried (u : Bytes) (xs : List ServerName) (r : Virtual) : Type 0 where
    matches : (x : ServerName) → First u matched xs x → r ≡ server_at x.server → Tried u xs r
    breaks : (x : ServerName) → First u failed xs x → r ≡ server_error → Tried u xs r
    passes : All (Passed u) xs → r ≡ no_server → Tried u xs r

  First-cons :
      (u : Bytes) (e : Exec) (xs : List ServerName) (x y : ServerName)
      → Passed u y
      → First u e xs x
      → First u e (y ∷ xs) x
  First-cons u e xs x y g f = record {
    before = y ∷ f.before;
    behind = f.behind;
    whole = ap (λ z. y ∷ z) f.whole;
    passed = (g, f.passed);
    gives = f.gives;
  }

  Tried-cons :
      (u : Bytes) (xs : List ServerName) (r : Virtual) (y : ServerName)
      → Passed u y
      → Tried u xs r
      → Tried u (y ∷ xs) r
  Tried-cons u xs r y g (matches x f e) = matches x (First-cons u matched xs x y g f) e
  Tried-cons u xs r y g (breaks x f e) = breaks x (First-cons u failed xs x y g f) e
  Tried-cons u xs r y g (passes p e) = passes (g, p) e

  abbrev next_of : List ServerName → Bytes → ServerName → Exec → Virtual
  next_of xs u x e = elim e [
    | matched ↦ server_at x.server
    | no_matched ↦ regex_servers h exec (length xs) xs u
    | failed ↦ server_error
  ]

  regex_servers-next_of :
      (u : Bytes) (xs : List ServerName) (x : ServerName) (r : ℕ) (e : Exec)
      → x.regex ≡ some r
      → exec r u ≡ e
      → regex_servers h exec (suc (length xs)) (x ∷ xs) u ≡ next_of xs u x e
  unfolding regex_servers
  regex_servers-next_of u xs x r e g k =
      ap
        (λ (o : Option ℕ). elim o as (λ _. Virtual) [
          | none ↦ bad_read
          | some r' ↦ next_of xs u x (exec r' u)
        ])
        g
      ∙ ap (next_of xs u x) k

  regex_servers-Tried :
      (u : Bytes) (xs : List ServerName)
      → Tried u xs (regex_servers h exec (length (with_regex h xs)) (with_regex h xs) u)
  unfolding regex_servers
  regex_servers-Tried u [] = passes tt refl
  regex_servers-Tried u (x ∷ xs) = elim (Option-cases x.regex) [
    | inl e ↦
        let q : with_regex h (x ∷ xs) ≡ with_regex h xs = rw e refl in
        subst (λ z. Tried u (x ∷ xs) (regex_servers h exec (length z) z u)) (sym q)
          (Tried-cons u xs (regex_servers h exec (length (with_regex h xs)) (with_regex h xs) u) x
            (inl e) (regex_servers-Tried u xs))
    | inr (r, e) ↦
        let q : with_regex h (x ∷ xs) ≡ x ∷ with_regex h xs = rw e refl in
        subst (λ z. Tried u (x ∷ xs) (regex_servers h exec (length z) z u)) (sym q)
          (by_exec r e (exec r u) refl (regex_servers-Tried u xs))
  ]
    where
      ys : List ServerName
      ys = with_regex h xs

      here : (e : Exec) → Gives u e x → First u e (x ∷ xs) x
      here e g = record { before = []; behind = xs; whole = refl; passed = tt; gives = g }

      by_exec :
          (r : ℕ)
          → x.regex ≡ some r
          → (e : Exec) → exec r u ≡ e
          → Tried u xs (regex_servers h exec (length ys) ys u)
          → Tried u (x ∷ xs) (regex_servers h exec (suc (length ys)) (x ∷ ys) u)
      by_exec r e matched k ih =
          matches x (here matched (r, e, k)) (regex_servers-next_of u ys x r matched e k)
      by_exec r e failed k ih =
          breaks x (here failed (r, e, k)) (regex_servers-next_of u ys x r failed e k)
      by_exec r e no_matched k ih =
          subst (Tried u (x ∷ xs)) (sym (regex_servers-next_of u ys x r no_matched e k))
            (Tried-cons u xs (regex_servers h exec (length ys) ys u) x (inr (r, e, k)) ih)

  -- what a request for a host gets: the server that the tables name, else the one of the first
  -- expression that matches, NULL where one fails before, else the first server
  pub data Serves (ss : List Server) (table : Option ℕ) (host : Bytes) (r : Answer Server)
      : Type 0 where
    by_table : (n : ℕ) → table ≡ some n → ServerAt ss n r → Serves ss table host r
    by_regex :
        (x : ServerName)
        → table ≡ none
        → host ≢ []
        → First host matched (all_names ss) x
        → ServerAt ss x.server r
        → Serves ss table host r
    broken :
        (x : ServerName)
        → table ≡ none
        → host ≢ []
        → First host failed (all_names ss) x
        → r ≡ null
        → Serves ss table host r
    by_default :
        table ≡ none
        → (host ≡ []) ⊎ All (Passed host) (all_names ss)
        → ServerAt ss 0 r
        → Serves ss table host r

  abbrev answer : List Server → Virtual → Answer Server
  answer ss v = elim v [
    | server_at n ↦ server_of h ss n
    | no_server ↦ server_of h ss 0
    | server_error ↦ null
    | bad_read ↦ undefined
  ]

  Tried-Serves :
      (ss : List Server) (table : Option ℕ) (host : Bytes) (v : Virtual)
      → table ≡ none
      → host ≢ []
      → Tried host (all_names ss) v
      → Serves ss table host (answer ss v)
  Tried-Serves ss table host v t n (matches x f e) =
      by_regex x t n f
        (subst (ServerAt ss x.server) (sym (ap (answer ss) e)) (server_of-ServerAt h ss x.server))
  Tried-Serves ss table host v t n (breaks x f e) = broken x t n f (ap (answer ss) e)
  Tried-Serves ss table host v t n (passes p e) =
      by_default t (inr p)
        (subst (ServerAt ss 0) (sym (ap (answer ss) e)) (server_of-ServerAt h ss 0))

  get_srv-Serves :
      (c : MainConf h) (ss : List Server) (host : Bytes)
      → c.servers ≡ ss
      → c.nregex ≡ length (regexes_of h ss)
      → c.regex ≡ regexes_of h ss
      → Serves ss
          (h.find_combined c.hash c.wc_head c.wc_tail host)
          host
          (get_srv h exec (some c) host)
  unfolding get_srv find_virtual_server
  get_srv-Serves c ss host s n x =
      rw s (by_host (h.find_combined c.hash c.wc_head c.wc_tail host) refl host)
    where
      by_host :
          (t : Option ℕ)
          → h.find_combined c.hash c.wc_head c.wc_tail host ≡ t
          → (u : Bytes)
          → Serves ss t u (
              answer ss (elim t as (λ _. Virtual) [
                | some s ↦ server_at s
                | none ↦ elim u as (λ _. Virtual) [
                  | [] ↦ no_server
                  | y ∷ ys ↦ regex_servers h exec c.nregex c.regex (y ∷ ys)
                ]
              ]))
      by_host (some k) e u = by_table k refl (server_of-ServerAt h ss k)
      by_host none e [] = by_default refl (inl refl) (server_of-ServerAt h ss 0)
      by_host none e (y ∷ ys) =
          rw (n, x, regexes_of-all_names h ss)
            (Tried-Serves ss none (y ∷ ys)
              (regex_servers h exec (length (with_regex h (all_names ss)))
                (with_regex h (all_names ss)) (y ∷ ys))
              refl (λ g. cc g) (regex_servers-Tried (y ∷ ys) (all_names ss)))

-- Where the end of the http block succeeds, the pool for temporary data is destroyed. The names of
-- the servers that are no regular expressions have been added to the keys in their order, none of
-- them refused, and there is a table of each kind of key that there is. A request for a host gets,
-- whatever the expressions are: the server that the tables give, else that of the first name in the
-- order of the configuration whose expression matches, NULL where an expression fails before one
-- matches, else, and for an empty host that the tables do not have, the first server.
pub init_virtual_servers-Serves :
    (h : Hashes) (pool array memory : Bool) (c : MainConf h)
    → Fresh h c
    → (init_virtual_servers h pool array memory c).ok_ ≡ true
    → let i : Init h = init_virtual_servers h pool array memory c in
      (i.temp ≡ false)
      × ((k : Keys) × Adds h (all_names c.servers) no_keys k × AllMade h k i.conf)
      × ((exec : ℕ → Bytes → Exec) (host : Bytes)
          → Serves h exec c.servers
              (h.find_combined i.conf.hash i.conf.wc_head i.conf.wc_tail host)
              host
              (get_srv h exec (some i.conf) host))
init_virtual_servers-Serves h pool array memory c f o =
    let i = init_virtual_servers h pool array memory c in
    let r = init-Ready h pool array memory c f o in
    let (k, n, e, t) = init-Tables h pool array memory c o in
    (
      r.gone,
      (k, add_servers-Adds h c.servers no_keys 0 k n e, Tables-AllMade h k i.conf t),
      λ exec host. get_srv-Serves h exec i.conf c.servers host r.servers r.nregex r.regex,
    )
