-- ===== src/Emu/Trawler/Idents.antt =====
-- Who the nodes of the Trawler's table are, whatever has been sent to them: no line changes that.
use cpp_tcp.Base.{
  ℕ, ◌≡◌, sym, ap, ◌∙◌, Bool, true, false, Option, none, some, List, [], ◌∷◌, if◌then◌else◌,
  Bool-cases, Option-cases, inl, inr, arith,
}
use cpp_tcp.Base.Int.{ℤ, ◌==ℤ◌}
use cpp_tcp.Base.Double.{DoubleOps}
use cpp_tcp.Base.Assoc.{insert}
use cpp_tcp.Base.Text.{TextOps, codes, bytes_eq}
use cpp_tcp.Sim.Edge.{default_options}
use cpp_tcp.Sim.Topology
use cpp_tcp.Sim.Topology.{get_live_edge}
use cpp_tcp.Sim.Parser.{token}
use cpp_tcp.Sim.Parser.Keeping.{Keeps}
use cpp_tcp.Emu.ArpCommands.{FormatOps, remove_neighbor, reset}
use cpp_tcp.Emu.Trawler.{
  EmulatedNode, TrawlerService, addr_eq, is_alive, get_emulated_node, addresses, write_line, tell,
  neighbor_line, lookup_live, send_add_neighbor, with_both, start_edge, fail_edge, if_linked,
  tell_removed, others, remove_as_neighbor, fail_node, tell_started, update_neighbors, restart_node,
  trawler_hooks,
}

pub record Ident : Type 0 where
  pub key : ℤ
  pub addr : ℤ
  pub ip : List ℕ
  pub port : ℤ

abbrev pub ident : ℤ → EmulatedNode → Ident
ident key n = record { key = key; addr = n.fish_addr; ip = n.ip_address; port = n.udp_port }

abbrev pub idents : List (ℤ × EmulatedNode) → List Ident
idents [] = []
idents ((key, n) ∷ nodes) = ident key n ∷ idents nodes

write_line-ident :
    (delivers : ℤ → ℕ → Bool) (line : List ℕ) (key : ℤ) (n : EmulatedNode)
    → ident key (write_line delivers line n) ≡ ident key n
unfolding write_line
write_line-ident delivers line key n = ground arith

idents-insert :
    (a : ℤ) (nodes : List (ℤ × EmulatedNode)) (n n' : EmulatedNode)
    → get_emulated_node a nodes ≡ some n
    → ((key : ℤ) → ident key n' ≡ ident key n)
    → idents (insert addr_eq a n' nodes) ≡ idents nodes
idents-insert a [] n n' e h = cc
idents-insert a ((key, k) ∷ nodes) n n' e h = elim (Bool-cases (key ==ℤ a)) [
  | inl same ↦
      let found : some k ≡ some n = rw same at e in
      let first : k ≡ n = cc in
      rw same (ap (λ i. i ∷ idents nodes) (h key ∙ ap (ident key) (sym first)))
  | inr other ↦
      let found : get_emulated_node a nodes ≡ some n = rw other at e in
      rw other (ap (λ is. ident key k ∷ is) (idents-insert a nodes n n' found h))
]

module _ {D : Type 0} (double : DoubleOps D) (text : TextOps D) (fmt : FormatOps D)
    (delivers : ℤ → ℕ → Bool) (ids : List Ident) where
  -- The nodes of the table are these.
  abbrev pub Has : TrawlerService D → Type 0
  Has t = idents t.emulated_nodes ≡ ids

  -- The operations of the service, with its parameters.
  abbrev pub add : ℤ → EmulatedNode → EmulatedNode → TrawlerService D → TrawlerService D
  add = send_add_neighbor double text fmt delivers

  branch-Has : (b : Bool) (x y : TrawlerService D) → Has x → Has y → Has (if b then x else y)
  branch-Has true x y h k = h
  branch-Has false x y h k = k

  -- What is done for a value, if there is one.
  optional-Has :
      {A : Type 0} (o : Option A) (f : A → TrawlerService D) (t : TrawlerService D)
      → ((a : A) → Has (f a))
      → Has t
      → Has (elim o [ none ↦ t | some a ↦ f a ])
  optional-Has none f t keep h = h
  optional-Has (some a) f t keep h = keep a

  pub tell-Has :
      (a : ℤ) (line : List ℕ) (t : TrawlerService D)
      → Has t
      → Has (tell double text fmt delivers a line t)
  tell-Has a line t h = elim (Option-cases (get_emulated_node a t.emulated_nodes)) [
    | inl e ↦ rw (tell, e) h
    | inr (n, e) ↦
        rw (tell, e)
          (idents-insert a t.emulated_nodes n (write_line delivers line n) e
              (λ key. write_line-ident delivers line key n)
            ∙ h)
  ]

  pub send_add_neighbor-Has :
      (a : ℤ) (n peer : EmulatedNode) (t : TrawlerService D) → Has t → Has (add a n peer t)
  unfolding send_add_neighbor
  send_add_neighbor-Has a n peer t h =
      let found = lookup_live double text fmt delivers n.fish_addr peer.fish_addr t in
      tell-Has a (neighbor_line double text fmt delivers peer found.1) found.0 h

  with_both-Has :
      (x y : Option EmulatedNode)
      (f : EmulatedNode → EmulatedNode → TrawlerService D → TrawlerService D) (t : TrawlerService D)
      → ((n k : EmulatedNode) (s : TrawlerService D) → Has s → Has (f n k s))
      → Has t
      → Has (with_both double text fmt delivers x y f t)
  with_both-Has (some n) (some k) f t keep h = keep n k t h
  with_both-Has (some n) none f t keep h = h
  with_both-Has none k f t keep h = h

  pub start_edge-Has :
      (a b : ℤ) (t : TrawlerService D) → Has t → Has (start_edge double text fmt delivers a b t)
  unfolding start_edge
  start_edge-Has a b t h =
      with_both-Has (get_emulated_node a t.emulated_nodes) (get_emulated_node b t.emulated_nodes)
        (λ na nb s. add b nb na (add a na nb s)) t
        (λ na nb s k.
          send_add_neighbor-Has b nb na (add a na nb s) (send_add_neighbor-Has a na nb s k))
        h

  pub fail_edge-Has :
      (a b : ℤ) (t : TrawlerService D) → Has t → Has (fail_edge double text fmt delivers a b t)
  unfolding fail_edge
  fail_edge-Has a b t h =
      let drop = λ (x y : ℤ). tell double text fmt delivers x (remove_neighbor double text fmt y) in
      with_both-Has (get_emulated_node a t.emulated_nodes) (get_emulated_node b t.emulated_nodes)
        (λ na nb s. drop b a (drop a b s)) t
        (λ na nb s k.
          tell-Has b (remove_neighbor double text fmt a) (drop a b s)
            (tell-Has a (remove_neighbor double text fmt b) s k))
        h

  if_linked-Has :
      (a : ℤ) (n : EmulatedNode) (other : ℤ) (f : TrawlerService D → TrawlerService D)
      (t : TrawlerService D)
      → ((s : TrawlerService D) → Has s → Has (f s))
      → Has t
      → Has (if_linked double text fmt delivers a n other f t)
  if_linked-Has a n other f t keep h =
      let found = lookup_live double text fmt delivers n.fish_addr other t in
      optional-Has found.1 (λ e. if is_alive n then f found.0 else found.0) found.0
        (λ e. branch-Has (is_alive n) (f found.0) found.0 (keep found.0 h) h) h

  pub tell_removed-Has :
      (rest : List ℤ) (gone : ℤ) (t : TrawlerService D)
      → Has t
      → Has (tell_removed double text fmt delivers rest gone t)
  unfolding tell_removed
  tell_removed-Has [] gone t h = h
  tell_removed-Has (a ∷ rest) gone t h =
      let line = remove_neighbor double text fmt gone in
      let f = λ (n : EmulatedNode).
        if_linked double text fmt delivers a n gone (tell double text fmt delivers a line) t in
      let o = get_emulated_node a t.emulated_nodes in
      tell_removed-Has rest gone (elim o [ none ↦ t | some n ↦ f n ])
        (optional-Has o f t
          (λ n. if_linked-Has a n gone (tell double text fmt delivers a line) t (tell-Has a line) h)
          h)

  pub fail_node-Has :
      (a : ℤ) (t : TrawlerService D) → Has t → Has (fail_node double text fmt delivers a t)
  unfolding fail_node remove_as_neighbor
  fail_node-Has a t h =
      let told = tell double text fmt delivers a reset t in
      optional-Has (get_emulated_node a t.emulated_nodes)
        (λ n. remove_as_neighbor double text fmt delivers a told) t
        (λ n.
          tell_removed-Has (others double text fmt delivers a (addresses told.emulated_nodes)) a
            told (tell-Has a reset t h))
        h

  tell_started-Has :
      (rest : List ℤ) (a : ℤ) (s : EmulatedNode) (t : TrawlerService D)
      → Has t
      → Has (tell_started double text fmt delivers rest a s t)
  unfolding tell_started
  tell_started-Has [] a s t h = h
  tell_started-Has (b ∷ rest) a s t h =
      let o = get_emulated_node b t.emulated_nodes in
      let both = λ (n : EmulatedNode) (u : TrawlerService D). add a s n (add b n s u) in
      let f = λ (n : EmulatedNode).
        if n.fish_addr ==ℤ a
        then t
        else if_linked double text fmt delivers b n s.fish_addr (both n) t in
      tell_started-Has rest a s (elim o [ none ↦ t | some n ↦ f n ])
        (optional-Has o f t
          (λ n.
            branch-Has (n.fish_addr ==ℤ a) t
              (if_linked double text fmt delivers b n s.fish_addr (both n) t) h
              (if_linked-Has b n s.fish_addr (both n) t
                (λ u k. send_add_neighbor-Has a s n (add b n s u) (send_add_neighbor-Has b n s u k))
                h))
          h)

  pub update_neighbors-Has :
      (a : ℤ) (t : TrawlerService D) → Has t → Has (update_neighbors double text fmt delivers a t)
  unfolding update_neighbors
  update_neighbors-Has a t h =
      optional-Has (get_emulated_node a t.emulated_nodes)
        (λ s. tell_started double text fmt delivers (addresses t.emulated_nodes) a s t) t
        (λ s. tell_started-Has (addresses t.emulated_nodes) a s t h) h

  -- No command of a script changes who the nodes are.
  pub hooks-Has : Keeps Has (trawler_hooks double text fmt delivers)
  unfolding restart_node
  hooks-Has = record {
    exits = λ cmd t h.
        branch-Has (bytes_eq (token 0 cmd) (codes "exit")) (record t { exited = true }) t h h;
    node_cmds = λ cmd t h. h;
    new_edges = λ a b o t h.
        start_edge-Has a b
          (record t { topology = Topology.new_edge (default_options double) a b o t.topology }) h;
    fail_edges = λ a b t h.
        let r = Topology.fail_edge (default_options double) a b t.topology in
        let t' : TrawlerService D = record t { topology = r.0 } in
        branch-Has r.1 (fail_edge double text fmt delivers a b t') t' (fail_edge-Has a b t' h) h;
    fail_nodes = λ a t h. fail_node-Has a t h;
    restart_edges = λ a b t h.
        let r = Topology.restart_edge (default_options double) a b t.topology in
        let t' : TrawlerService D = record t { topology = r.0 } in
        branch-Has r.1 (start_edge double text fmt delivers a b t') t' (start_edge-Has a b t' h) h;
    restart_nodes = λ a t h.
        update_neighbors-Has a (record t { topology = Topology.restart_node a t.topology }) h;
    prints = λ bytes t h. h;
  }
