-- ===== src/HttpDynamic/Blocks/Restores.antt =====
-- What the blocks leave of the configuration state, and a server block that succeeds.
use nginx_toolkit_module.Base.{
  ℕ, ◌≡◌, refl, sym, ap, ◌∙◌, subst, All, inl, inr, Bool, true, false, Option, List, [], ◌∷◌, ◌++◌,
  if◌then◌else◌, Ordering, Bool-cases, Option-cases, if_false,
}
use nginx_toolkit_module.Text.{Bytes}
use nginx_toolkit_module.DynamicConf.Handler.{Rv, conf_ok, conf_error, message}
use nginx_toolkit_module.HttpDynamic.Names.{FileNames}
use nginx_toolkit_module.HttpDynamic.Location.{LocConf, Entry, add_location}
use nginx_toolkit_module.HttpDynamic.Search.{Locations, finish}
use nginx_toolkit_module.HttpDynamic.Servers.{Server, Hashes, MainConf}
use nginx_toolkit_module.HttpDynamic.Blocks.{
  Slots, Cf, HttpModule, http_srv, create_confs, init_confs, inside, in_block, blank_server,
  location_block, server_block, http_block,
}
use nginx_toolkit_module.HttpDynamic.Blocks.Runs.{
  Creates, Inits, create_confs-Creates, init_confs-Inits, KeepsState, create_confs-KeepsState,
}

module _ {T : Type 0} where
  in_block_restores :
      (parse : Cf → T → Bool × Cf × T) (ms : List (HttpModule T)) (slots : Slots) (set : Cf → Cf)
      (ends : T → Bool × T) (cf : Cf) (t : T)
      → (in_block parse ms slots set ends cf t).1 ≡ cf
  unfolding in_block
  in_block_restores parse ms slots set ends cf t = by_rv (inside parse ms slots (set cf) t).0
    where
      t' : T
      t' = (inside parse ms slots (set cf) t).2

      by_rv :
          (rv : Rv)
          → (elim rv as (λ _. Rv × Cf × T) [
            | conf_ok ↦ (if (ends t').0 then conf_ok else conf_error, cf, (ends t').1)
            | conf_error ↦ (conf_error, cf, t')
            | message ↦ (message, cf, t')
          ]).1
            ≡ cf
      by_rv conf_ok = refl
      by_rv conf_error = refl
      by_rv message = refl

  -- a block that succeeds
  in_block_ok :
      (parse : Cf → T → Bool × Cf × T) (ms : List (HttpModule T)) (slots : Slots) (set : Cf → Cf)
      (ends : T → Bool × T) (cf : Cf) (t : T)
      → (in_block parse ms slots set ends cf t).0 ≡ conf_ok
      → let i : Rv × Cf × T = inside parse ms slots (set cf) t in
        (i.0 ≡ conf_ok)
        × ((ends i.2).0 ≡ true)
        × ((in_block parse ms slots set ends cf t).2 ≡ (ends i.2).1)
  unfolding in_block
  in_block_ok parse ms slots set ends cf t = by_rv (inside parse ms slots (set cf) t).0
    where
      t' : T
      t' = (inside parse ms slots (set cf) t).2

      by_rv :
          (rv : Rv)
          → let r : Rv × Cf × T = elim rv [
            | conf_ok ↦ (if (ends t').0 then conf_ok else conf_error, cf, (ends t').1)
            | conf_error ↦ (conf_error, cf, t')
            | message ↦ (message, cf, t')
          ] in
            r.0 ≡ conf_ok → (rv ≡ conf_ok) × ((ends t').0 ≡ true) × (r.2 ≡ (ends t').1)
      by_rv conf_ok h = elim (Bool-cases (ends t').0) [
        | inl e ↦ (refl, e, refl)
        | inr e ↦ absurd (cc (sym (if_false conf_ok conf_error e) ∙ h))
      ]
      by_rv conf_error h = cc
      by_rv message h = cc

module _ {T : Type 0} where
  -- what is inside a block, where it succeeds
  inside_ok :
      (parse : Cf → T → Bool × Cf × T) (ms : List (HttpModule T)) (k : Slots) (cf : Cf) (t : T)
      → (inside parse ms k cf t).0 ≡ conf_ok
      → ((parse cf t).0 ≡ true)
        × Inits ms k
            (parse cf t).1
            (parse cf t).2
            (inside parse ms k cf t).1
            (inside parse ms k cf t).2
  unfolding inside
  inside_ok parse ms k cf t h = elim (Bool-cases (parse cf t).0) [
    | inl e ↦
        let q : inside parse ms k cf t ≡ init_confs ms k (parse cf t).1 (parse cf t).2 =
          rw (inside, e) in
        (
          e,
          subst (λ (r : Rv × Cf × T). Inits ms k (parse cf t).1 (parse cf t).2 r.1 r.2) (sym q)
              (init_confs-Inits ms k (parse cf t).1 (parse cf t).2
                (ap (λ (r : Rv × Cf × T). r.0) (sym q) ∙ h)),
        )
    | inr e ↦ let q : (inside parse ms k cf t).0 ≡ conf_error = rw (inside, e) in cc
  ]

module _ ⦃f : FileNames⦄ {S : Type 0} where
  location_restores :
      (slots : Bool) (compile : Bytes → Bool → Option ℕ) (queue_memory memory : Bool)
      (args : List Bytes) (c : LocConf) (parse : Cf → S × Server → Bool × Cf × (S × Server))
      (ms : List (HttpModule (S × Server))) (cf : Cf) (t : S × Server)
      → (create_confs ms [] cf t).1 ≡ cf
      → (location_block slots compile queue_memory memory args c parse ms cf t).1 ≡ cf
  unfolding location_block
  location_restores false compile queue_memory memory args c parse ms cf t keep = refl
  location_restores true compile queue_memory memory args c parse ms cf t keep =
      elim (Option-cases (create_confs ms [] cf t).0) [
        | inl e ↦ rw (location_block, e) keep
        | inr (k, e) ↦
            let a =
              add_location compile queue_memory memory args
                (create_confs ms [] cf t).2.1.locations.locations c in
            elim (Bool-cases a.0) [
              | inl g ↦ rw (location_block, e, g) (in_block_restores parse ms k _ _ _ _ ∙ keep)
              | inr g ↦ rw (location_block, e, g) keep
            ]
      ]

  server_restores :
      (slots push : Bool) (sort : (Entry → Entry → Ordering) → List Entry → List Entry)
      (array : Bool) (middle : ℕ → ℕ) (memory : ℕ → Bytes → Bool)
      (parse : Cf → S × Server → Bool × Cf × (S × Server)) (ms : List (HttpModule (S × Server)))
      (cf : Cf) (s : S) (servers : List Server)
      → (create_confs ms [] cf (s, blank_server)).1 ≡ cf
      → (server_block slots push sort array middle memory parse ms cf s servers).1 ≡ cf
  unfolding server_block
  server_restores false push sort array middle memory parse ms cf s servers keep = refl
  server_restores true push sort array middle memory parse ms cf s servers keep =
      elim (Option-cases (create_confs ms [] cf (s, blank_server)).0) [
        | inl e ↦ rw (server_block, e) keep
        | inr (k, e) ↦ elim (Bool-cases push) [
          | inl g ↦ rw (server_block, e, g) (in_block_restores parse ms k _ _ _ _ ∙ keep)
          | inr g ↦ rw (server_block, e, g) keep
        ]
      ]

  http_restores :
      (h : Hashes) (slots pool array memory : Bool)
      (parse : Cf → S × MainConf h → Bool × Cf × (S × MainConf h))
      (ms : List (HttpModule (S × MainConf h))) (cf : Cf) (t : S × MainConf h)
      → (create_confs ms [] cf t).1 ≡ cf
      → (http_block h slots pool array memory parse ms cf t).1 ≡ cf
  unfolding http_block
  http_restores h false pool array memory parse ms cf t keep = refl
  http_restores h true pool array memory parse ms cf t keep =
      elim (Option-cases (create_confs ms [] cf t).0) [
        | inl e ↦ rw (http_block, e) keep
        | inr (k, e) ↦ rw (http_block, e) (in_block_restores parse ms k _ _ _ _ ∙ keep)
      ]

  -- Where the functions of the modules that create configurations leave the configuration state as
  -- it was, the blocks location, server and http do so too, on success and on every failure,
  -- whatever the parsing of the block and the functions that initialise do with it.
  pub blocks_restore :
      (slots : Bool) (compile : Bytes → Bool → Option ℕ) (queue_memory memory : Bool)
      (args : List Bytes) (c : LocConf) (push : Bool)
      (sort : (Entry → Entry → Ordering) → List Entry → List Entry) (array : Bool) (middle : ℕ → ℕ)
      (tree_memory : ℕ → Bytes → Bool) (parse : Cf → S × Server → Bool × Cf × (S × Server))
      (ms : List (HttpModule (S × Server))) (h : Hashes) (pool : Bool)
      (parse_http : Cf → S × MainConf h → Bool × Cf × (S × MainConf h))
      (http_ms : List (HttpModule (S × MainConf h))) (cf : Cf) (s : S) (v : Server)
      (main : MainConf h) (servers : List Server)
      → All KeepsState ms
      → All KeepsState http_ms
      → ((location_block slots compile queue_memory memory args c parse ms cf (s, v)).1 ≡ cf)
        × ((server_block slots push sort array middle tree_memory parse ms cf s servers).1 ≡ cf)
        × ((http_block h slots pool array memory parse_http http_ms cf (s, main)).1 ≡ cf)
  blocks_restore slots compile queue_memory memory args c push sort array middle tree_memory parse
        ms h pool parse_http http_ms cf s v main servers a b =
      (
        location_restores slots compile queue_memory memory args c parse ms cf (s, v)
            (create_confs-KeepsState ms [] cf (s, v) a),
        server_restores slots push sort array middle tree_memory parse ms cf s servers
            (create_confs-KeepsState ms [] cf (s, blank_server) a),
        http_restores h slots pool array memory parse_http http_ms cf (s, main)
            (create_confs-KeepsState http_ms [] cf (s, main) b),
      )

  -- A server block that succeeds has a configuration of each http module that makes one; what it
  -- holds was parsed in the configuration state with these, at the level of a server, and each http
  -- module that initialises its configuration has done so behind it. The block adds one server
  -- behind the others, with what the parsing and the modules left of it, and with the locations
  -- finished without a failure; the configuration state is as the creation left it.
  pub server_block_ok :
      (slots push : Bool) (sort : (Entry → Entry → Ordering) → List Entry → List Entry)
      (array : Bool) (middle : ℕ → ℕ) (memory : ℕ → Bytes → Bool)
      (parse : Cf → S × Server → Bool × Cf × (S × Server)) (ms : List (HttpModule (S × Server)))
      (cf : Cf) (s : S) (servers : List Server)
      → (server_block slots push sort array middle memory parse ms cf s servers).0 ≡ conf_ok
      → (k : Slots) × (cf1 : Cf) × (t1 : S × Server) × (cf2 : Cf) × (t2 : S × Server) × (cf3 : Cf)
        × (t3 : S × Server) × (l : Locations) × Creates ms [] cf (s, blank_server) k cf1 t1
        × (parse (record cf1 { ctx = k; cmd_type = http_srv }) t1 ≡ (true, cf2, t2))
        × Inits ms k cf2 t2 cf3 t3
        × (finish sort array middle memory t3.1.locations ≡ (true, l))
        × (server_block slots push sort array middle memory parse ms cf s servers
            ≡ (conf_ok, cf1, t3.0, servers ++ (record t3.1 { locations = l } ∷ [])))
  unfolding server_block
  server_block_ok false push sort array middle memory parse ms cf s servers h = cc
  server_block_ok true push sort array middle memory parse ms cf s servers h =
      elim (Option-cases (create_confs ms [] cf (s, blank_server)).0) [
        | inl e ↦
            let r : (server_block true push sort array middle memory parse ms cf s servers).0
                ≡ conf_error =
              rw (server_block, e) in
            cc
        | inr (k, e) ↦ elim (Bool-cases push) [
          | inr g ↦
              let r : (server_block true push sort array middle memory parse ms cf s servers).0
                  ≡ conf_error =
                rw (server_block, e, g) in
              cc
          | inl g ↦
              let inner : Cf → Cf = λ f. record f { ctx = k; cmd_type = http_srv } in
              let ends : S × Server → Bool × (S × Server) = λ t.
                let (done, l) = finish sort array middle memory t.1.locations in
                (done, (t.0, record t.1 { locations = l })) in
              let cf1 : Cf = (create_confs ms [] cf (s, blank_server)).1 in
              let t1 : S × Server = (create_confs ms [] cf (s, blank_server)).2 in
              let b : Rv × Cf × (S × Server) = in_block parse ms k inner ends cf1 t1 in
              let q : server_block true push sort array middle memory parse ms cf s servers
                  ≡ (b.0, b.1, b.2.0, servers ++ (b.2.1 ∷ [])) =
                rw (server_block, e, g) in
              let b0 : b.0 ≡ conf_ok = ap (λ (z : Rv × Cf × S × List Server). z.0) (sym q) ∙ h in
              let b1 : b.1 ≡ cf1 = in_block_restores parse ms k inner ends cf1 t1 in
              let (x, y, z) = in_block_ok parse ms k inner ends cf1 t1 b0 in
              let (p, i) = inside_ok parse ms k (inner cf1) t1 x in
              let (_, cf2, t2) = parse (inner cf1) t1 in
              let (_, cf3, t3) = inside parse ms k (inner cf1) t1 in
              let l : Locations = (finish sort array middle memory t3.1.locations).1 in
              (
                k,
                cf1,
                t1,
                cf2,
                t2,
                cf3,
                t3,
                l,
                create_confs-Creates ms [] cf (s, blank_server) k e,
                ap (λ d. (d, cf2, t2)) p,
                i,
                ap (λ d. (d, l)) y,
                q
                    ∙ ap (λ d. (d, b.1, b.2.0, servers ++ (b.2.1 ∷ []))) b0
                    ∙ ap (λ d. (conf_ok, d, b.2.0, servers ++ (b.2.1 ∷ []))) b1
                    ∙ ap (λ (w : S × Server). (conf_ok, cf1, w.0, servers ++ (w.1 ∷ []))) z,
              )
        ]
      ]
