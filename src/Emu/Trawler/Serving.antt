-- ===== src/Emu/Trawler/Serving.antt =====
-- What holds of the table of nodes in every round of the Trawler.
use cpp_tcp.Base.{
  ℕ, ◌<◌, ◌≡◌, refl, ap, ◌∙◌, subst, Bool, true, false, not, ◌&&◌, Option, none, some, List, [],
  ◌∷◌, if◌then◌else◌, Bool-cases, Option-cases, inl, inr, arith,
}
use cpp_tcp.Base.Int.{ℤ, pos, minus_one, ltb_ℤ, ◌==ℤ◌}
use cpp_tcp.Base.Double.{DoubleOps}
use cpp_tcp.Base.Assoc.{insert, erase}
use cpp_tcp.Base.Text.{TextOps}
use cpp_tcp.Sim.Topology.{Topology}
use cpp_tcp.Sim.Parser.{parse_line, parse_file, parse_remainder}
use cpp_tcp.Sim.Parser.Keeping.{Keeps, parse_line-keeps, parse_remainder-keeps}
use cpp_tcp.Emu.ArpCommands.{FormatOps}
use cpp_tcp.Emu.Trawler.{
  EmulatedNode, TrawlerService, addr_eq, make_node, is_alive, get_emulated_node, port_conflict,
  free_fish_addr, addresses, drop_node, check_quit, check_nodes_quit, trawler_hooks,
}
use cpp_tcp.Emu.Trawler.Accept.{
  Connection, make_service, lowest_port, assign_addr, admit, greet, resume, serve, serve_all,
  after_file, run,
}
use cpp_tcp.Emu.Trawler.Addresses.{free_fish_addr-lowest}
use cpp_tcp.Emu.Trawler.Idents.{ident, idents, tell_removed-Has, update_neighbors-Has, hooks-Has}
use cpp_tcp.Emu.Trawler.Table.{
  is_table, is_table_append, avoids_new, idents-insert_new, is_table-erase,
}

module _ {D : Type 0} (double : DoubleOps D) (text : TextOps D) (fmt : FormatOps D)
    (delivers : ℤ → ℕ → Bool) where
  -- The nodes stand at their addresses, which are from 0 to 254, with ports from 1024 on, and no two of
  -- them have one address or one host and port.
  abbrev pub Distinct : TrawlerService D → Type 0
  Distinct t = is_table (idents t.emulated_nodes) ≡ true

  if_Distinct :
      (b : Bool) (x y : TrawlerService D) → Distinct x → Distinct y → Distinct (if b then x else y)
  if_Distinct true x y h k = h
  if_Distinct false x y h k = k

  drop_node-Distinct :
      (a : ℤ) (n : EmulatedNode) (t : TrawlerService D)
      → Distinct t
      → Distinct (drop_node double text fmt delivers a n t)
  unfolding drop_node
  drop_node-Distinct a n t h =
      let nodes = erase addr_eq a t.emulated_nodes in
      ap is_table (
        tell_removed-Has double text fmt delivers (idents nodes) (addresses nodes) n.fish_addr
          (record t { emulated_nodes = nodes }) refl)
      ∙ is_table-erase a t.emulated_nodes h

  check_quit-Distinct :
      (rest : List ℤ) (t : TrawlerService D)
      → Distinct t
      → Distinct (check_quit double text fmt delivers rest t)
  unfolding check_quit
  check_quit-Distinct [] t h = h
  check_quit-Distinct (a ∷ rest) t h = elim (Option-cases (get_emulated_node a t.emulated_nodes)) [
    | inl e ↦ rw (check_quit, e) (check_quit-Distinct rest t h)
    | inr (n, e) ↦
        let gone = drop_node double text fmt delivers a n t in
        rw (check_quit, e)
          (check_quit-Distinct rest (if not (is_alive n) then gone else t)
            (if_Distinct (not (is_alive n)) gone t (drop_node-Distinct a n t h) h))
  ]

  hooks-Distinct : Keeps Distinct (trawler_hooks double text fmt delivers)
  hooks-Distinct =
      let keep =
        λ (t : TrawlerService D). hooks-Has double text fmt delivers (idents t.emulated_nodes) in
      record {
        exits = λ cmd t h. ap is_table ((keep t).exits cmd t refl) ∙ h;
        node_cmds = λ cmd t h. ap is_table ((keep t).node_cmds cmd t refl) ∙ h;
        new_edges = λ a b o t h. ap is_table ((keep t).new_edges a b o t refl) ∙ h;
        fail_edges = λ a b t h. ap is_table ((keep t).fail_edges a b t refl) ∙ h;
        fail_nodes = λ a t h. ap is_table ((keep t).fail_nodes a t refl) ∙ h;
        restart_edges = λ a b t h. ap is_table ((keep t).restart_edges a b t refl) ∙ h;
        restart_nodes = λ a t h. ap is_table ((keep t).restart_nodes a t refl) ∙ h;
        prints = λ bytes t h. ap is_table ((keep t).prints bytes t refl) ∙ h;
      }

  script-Distinct :
      (now : ℤ) (lines : Option (List (List ℕ))) (t : TrawlerService D)
      → Distinct t
      → Distinct
          (parse_remainder
            (parse_line double text (trawler_hooks double text fmt delivers))
            now
            lines
            t).0
  script-Distinct now lines t h =
      let hooks = trawler_hooks double text fmt delivers in
      parse_remainder-keeps Distinct (parse_line double text hooks)
        (parse_line-keeps double text hooks Distinct hooks-Distinct) now lines t h

  resume-Distinct :
      (till now : ℤ) (t : TrawlerService D)
      → Distinct t
      → Distinct (resume double text fmt delivers till now t).0
  unfolding resume
  resume-Distinct till now t h = elim (Bool-cases (ltb_ℤ minus_one till && ltb_ℤ till now)) [
    | inl e ↦ rw e (script-Distinct now t.topo_lines t h)
    | inr e ↦ rw e h
  ]

  -- A new node at an address that is free, with a port that may be used.
  new_node-Distinct :
      (k : ℕ) (ip : List ℕ) (port : ℤ) (t : TrawlerService D)
      → k < 255
      → get_emulated_node (pos k) t.emulated_nodes ≡ none
      → ltb_ℤ port lowest_port ≡ false
      → port_conflict ip port t.emulated_nodes ≡ false
      → Distinct t
      → is_table (idents (insert addr_eq (pos k) (make_node (pos k) ip port) t.emulated_nodes))
        ≡ true
  new_node-Distinct k ip port t hi free low clear h =
      let n = make_node (pos k) ip port in
      ap is_table (idents-insert_new t.emulated_nodes (pos k) n free)
      ∙ is_table_append (idents t.emulated_nodes) (ident (pos k) n) h (ground arith)
          (avoids_new t.emulated_nodes (pos k) n free clear)

  address_there : (k : ℕ) → (pos k ==ℤ minus_one) ≡ false
  address_there k = ground arith

  assign_addr-Distinct :
      (ip : List ℕ) (port : ℤ) (t : TrawlerService D)
      → ltb_ℤ port lowest_port ≡ false
      → port_conflict ip port t.emulated_nodes ≡ false
      → Distinct t
      → Distinct
          (assign_addr double text fmt delivers (free_fish_addr t.emulated_nodes) ip port t).0
  unfolding assign_addr
  assign_addr-Distinct ip port t low clear h = elim (free_fish_addr-lowest t.emulated_nodes) [
    | inl (k, e, hi, free, below) ↦
        let nodes = insert addr_eq (pos k) (make_node (pos k) ip port) t.emulated_nodes in
        rw (e, address_there k)
          (ap is_table (
              update_neighbors-Has double text fmt delivers (idents nodes) (pos k)
                (record t { emulated_nodes = nodes }) refl)
            ∙ new_node-Distinct k ip port t hi free low clear h)
    | inr (e, all) ↦ rw e h
  ]

  admit-Distinct :
      (port : ℤ) (ip : List ℕ) (t : TrawlerService D)
      → Distinct t
      → Distinct (admit double text fmt delivers port ip t).0
  unfolding admit
  admit-Distinct port ip t h = elim (Bool-cases (ltb_ℤ port lowest_port)) [
    | inl e ↦ rw e h
    | inr e ↦ elim (Bool-cases (port_conflict ip port t.emulated_nodes)) [
      | inl e' ↦ rw (e, e') h
      | inr e' ↦ rw (e, e') (assign_addr-Distinct ip port t e e' h)
    ]
  ]

  optional-Distinct :
      {A : Type 0} (o : Option A) (f : A → TrawlerService D × Option (List ℕ))
      (t : TrawlerService D)
      → Distinct t
      → ((a : A) → Distinct (f a).0)
      → Distinct
          (elim o as (λ x. TrawlerService D × Option (List ℕ)) [
            | none ↦ (t, none)
            | some a ↦ f a
          ]).0
  optional-Distinct none f t h keep = h
  optional-Distinct (some a) f t h keep = keep a

  greet-Distinct :
      (c : Connection) (t : TrawlerService D)
      → Distinct t
      → Distinct (greet double text fmt delivers c t).0
  unfolding greet
  greet-Distinct c t h =
      let port_of = λ (port : ℤ). admit double text fmt delivers port c.peer_address t in
      let line_of = λ (line : List ℕ).
        elim (text.stoi line) as (λ x. TrawlerService D × Option (List ℕ)) [
          | none ↦ (t, none)
          | some port ↦ port_of port
        ] in
      optional-Distinct c.port_line line_of t h (λ line.
        optional-Distinct (text.stoi line) port_of t h
          (λ port. admit-Distinct port c.peer_address t h))

  serve-Distinct :
      (c : Connection) (till : ℤ) (t : TrawlerService D)
      → Distinct t
      → Distinct (serve double text fmt delivers c till t).0
  unfolding serve check_nodes_quit
  serve-Distinct c till t h =
      let t₀ = check_nodes_quit double text fmt delivers t in
      greet-Distinct c (resume double text fmt delivers till c.now_micros t₀).0 (
        resume-Distinct till c.now_micros t₀ (check_quit-Distinct (addresses t.emulated_nodes) t h))

  serve_all-Distinct :
      (cs : List Connection) (till : ℤ) (t : TrawlerService D)
      → Distinct t
      → Distinct (serve_all double text fmt delivers cs till t)
  unfolding serve_all
  serve_all-Distinct [] till t h = h
  serve_all-Distinct (c ∷ cs) till t h =
      let r = serve double text fmt delivers c till t in
      if_Distinct t.exited t (serve_all double text fmt delivers cs r.1 r.0) h
        (serve_all-Distinct cs r.1 r.0 (serve-Distinct c till t h))

  same : {A : Type 0} {x y : A} → some x ≡ some y → x ≡ y
  same e = cc

  after_file-Distinct :
      (cs : List Connection) (o : Option (TrawlerService D × Option (List (List ℕ)) × ℤ))
      → ((r : TrawlerService D × Option (List (List ℕ)) × ℤ) → o ≡ some r → Distinct r.0)
      → (t : TrawlerService D) → after_file double text fmt delivers cs o ≡ some t
      → Distinct t
  after_file-Distinct cs none keep t e = cc
  after_file-Distinct cs (some r) keep t e =
      let u : TrawlerService D = record (r.0) { topo_lines = r.1 } in
      subst Distinct (same e) (serve_all-Distinct cs r.2 u (keep r refl))

  -- Whatever the topology file says and whoever connects, the table of a Trawler that has been started
  -- holds no two nodes with one address or with one host and port, each stands at its own address from 0
  -- to 254, and its port is at least 1024.
  pub run-Distinct :
      (topo_file : Option (Option (List (List ℕ)))) (now : ℤ) (topology : Topology D)
      (cs : List Connection) (t : TrawlerService D)
      → run double text fmt delivers topo_file now topology cs ≡ some t
      → Distinct t
  unfolding run parse_file
  run-Distinct none now topology cs t e =
      subst Distinct (same e) (serve_all-Distinct cs minus_one _ refl)
  run-Distinct (some none) now topology cs t e = cc
  run-Distinct (some (some lines)) now topology cs t e =
      let parse = parse_line double text (trawler_hooks double text fmt delivers) in
      let t₀ = make_service topology in
      after_file-Distinct cs (parse_file parse (some lines) now t₀)
        (λ r k. subst (λ x. Distinct x.0) (same k) (script-Distinct now (some lines) t₀ refl)) t e
