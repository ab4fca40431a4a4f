-- ===== src/Emu/Trawler.antt =====
-- include/nb/trawler_service.hpp, emulated_node.hpp, trawler_commands_parser.hpp and their sources: the
-- table of the emulated nodes, and the lines of text that tell each its neighbours. Whether the n-th
-- line to a node is sent whole is a parameter, `delivers`. The loops over the table go by the addresses in it.
pub mod Accept
pub mod Addresses
pub mod Idents
pub mod Serving
pub mod Table
use cpp_tcp.Base.{
  ℕ, zero, suc, ◌+◌, Bool, true, false, not, ◌&&◌, ◌||◌, Option, none, some, List, [], ◌∷◌, ◌++◌,
  map, length, if◌then◌else◌,
}
use cpp_tcp.Base.Int.{ℤ, pos, minus_one, ltb_ℤ, ◌==ℤ◌}
use cpp_tcp.Base.Double.{DoubleOps}
use cpp_tcp.Base.Assoc.{find, insert, erase}
use cpp_tcp.Base.Text.{TextOps, codes, bytes_eq}
use cpp_tcp.Sim.Edge.{Edge, EdgeOptions, default_options}
use cpp_tcp.Sim.Topology
use cpp_tcp.Sim.Topology.{Topology, get_live_edge}
use cpp_tcp.Sim.Parser.{Command, Hooks, token, parse_line, parse_remainder}
use cpp_tcp.Emu.ArpCommands.{FormatOps, add_neighbor, add_neighbor_options, remove_neighbor, reset}

-- `fd_open` is `tcpFd_ >= 0`, and `lines` are those that were sent, the first one first.
pub record EmulatedNode : Type 0 where
  pub fd_open : Bool
  pub fish_addr : ℤ
  pub ip_address : List ℕ
  pub udp_port : ℤ
  pub alive : Bool
  pub lines : List (List ℕ)

-- `exited`: the command `exit` has ended the program: what is done after that means nothing.
pub record TrawlerService (D : Type 0) : Type 0 where
  pub topology : Topology D
  pub emulated_nodes : List (ℤ × EmulatedNode)
  pub topo_lines : Option (List (List ℕ))
  pub exited : Bool

abbrev pub addr_eq : ℤ → ℤ → Bool
addr_eq a b = a ==ℤ b

-- The constructor of a node.
abbrev pub make_node : ℤ → List ℕ → ℤ → EmulatedNode
make_node fish_addr ip_address udp_port = record {
  fd_open = true;
  fish_addr = fish_addr;
  ip_address = ip_address;
  udp_port = udp_port;
  alive = true;
  lines = [];
}

abbrev pub is_alive : EmulatedNode → Bool
is_alive n = n.alive && n.fd_open

abbrev pub get_emulated_node : ℤ → List (ℤ × EmulatedNode) → Option EmulatedNode
get_emulated_node addr nodes = find addr_eq addr nodes

-- The loop of `freeFishAddr` from `i` on.
unfoldable pub free_from : ℕ → ℕ → List (ℤ × EmulatedNode) → ℤ
free_from zero i nodes = minus_one
free_from (suc left) i nodes =
    let more = free_from left (suc i) nodes in
    elim (get_emulated_node (pos i) nodes) [ none ↦ pos i | some n ↦ more ]

unfoldable pub free_fish_addr : List (ℤ × EmulatedNode) → ℤ
free_fish_addr nodes = free_from 255 0 nodes

unfoldable pub port_conflict : List ℕ → ℤ → List (ℤ × EmulatedNode) → Bool
port_conflict ip_address udp_port [] = false
port_conflict ip_address udp_port ((addr, n) ∷ nodes) =
    bytes_eq n.ip_address ip_address && n.udp_port ==ℤ udp_port
    || port_conflict ip_address udp_port nodes

abbrev pub addresses : List (ℤ × EmulatedNode) → List ℤ
addresses [] = []
addresses ((addr, n) ∷ nodes) = addr ∷ addresses nodes

module _ (delivers : ℤ → ℕ → Bool) where
  unfoldable pub write_line : List ℕ → EmulatedNode → EmulatedNode
  write_line line n =
      if not n.fd_open
      then n
      else if delivers n.fish_addr (length n.lines)
      then record n { lines = n.lines ++ (line ∷ []) }
      else record n { alive = false }

module _ {D : Type 0} (double : DoubleOps D) (text : TextOps D) (fmt : FormatOps D)
    (delivers : ℤ → ℕ → Bool) where
  -- A line to the node at an address, if there is one.
  abbrev pub tell : ℤ → List ℕ → TrawlerService D → TrawlerService D
  tell addr line t = elim (get_emulated_node addr t.emulated_nodes) [
    | none ↦ t
    | some n ↦ record t {
      emulated_nodes = insert addr_eq addr (write_line delivers line n) t.emulated_nodes;
    }
  ]

  abbrev pub neighbor_line : EmulatedNode → Option (Edge D) → List ℕ
  neighbor_line peer none =
      add_neighbor double text fmt peer.fish_addr peer.ip_address peer.udp_port
  neighbor_line peer (some e) =
      add_neighbor_options double text fmt peer.fish_addr peer.ip_address peer.udp_port e.options

  -- The live edge between two nodes, with the topology after the lookup.
  abbrev pub lookup_live : ℤ → ℤ → TrawlerService D → TrawlerService D × Option (Edge D)
  lookup_live a b t =
      let (topology, edge) = get_live_edge (default_options double) a b t.topology in
      (record t { topology = topology }, edge)

  -- EmulatedNode::sendAddNeighbor, of the node at an address.
  unfoldable pub send_add_neighbor :
      ℤ → EmulatedNode → EmulatedNode → TrawlerService D → TrawlerService D
  send_add_neighbor addr n peer t =
      let (t', edge) = lookup_live n.fish_addr peer.fish_addr t in
      tell addr (neighbor_line peer edge) t'

  abbrev pub send_remove_neighbor : ℤ → ℤ → TrawlerService D → TrawlerService D
  send_remove_neighbor addr peer t = tell addr (remove_neighbor double text fmt peer) t

  -- Two nodes that are both there.
  abbrev pub with_both :
      Option EmulatedNode
      → Option EmulatedNode
      → (EmulatedNode → EmulatedNode → TrawlerService D → TrawlerService D)
      → TrawlerService D
      → TrawlerService D
  with_both (some n) (some k) f t = f n k t
  with_both (some n) none f t = t
  with_both none k f t = t

  unfoldable pub start_edge : ℤ → ℤ → TrawlerService D → TrawlerService D
  start_edge a b t =
      with_both (get_emulated_node a t.emulated_nodes) (get_emulated_node b t.emulated_nodes)
        (λ na nb s. send_add_neighbor b nb na (send_add_neighbor a na nb s)) t

  unfoldable pub fail_edge : ℤ → ℤ → TrawlerService D → TrawlerService D
  fail_edge a b t =
      with_both (get_emulated_node a t.emulated_nodes) (get_emulated_node b t.emulated_nodes)
        (λ na nb s. send_remove_neighbor b a (send_remove_neighbor a b s)) t

  -- What is done for the node of the table at `addr`, if there is a live edge to `other` and the node
  -- is alive.
  abbrev pub if_linked :
      ℤ
      → EmulatedNode
      → ℤ
      → (TrawlerService D → TrawlerService D)
      → TrawlerService D
      → TrawlerService D
  if_linked addr n other f t =
      let (t', edge) = lookup_live n.fish_addr other t in
      elim edge [ none ↦ t' | some e ↦ if is_alive n then f t' else t' ]

  -- The loop that tells the nodes at these addresses that a node is gone.
  unfoldable pub tell_removed : List ℤ → ℤ → TrawlerService D → TrawlerService D
  tell_removed [] gone t = t
  tell_removed (addr ∷ rest) gone t =
      tell_removed rest gone (elim (get_emulated_node addr t.emulated_nodes) [
        | none ↦ t
        | some n ↦ if_linked addr n gone (send_remove_neighbor addr gone) t
      ])

  -- The node that is gone does not tell itself.
  abbrev pub others : ℤ → List ℤ → List ℤ
  others a [] = []
  others a (b ∷ rest) = if b ==ℤ a then others a rest else b ∷ others a rest

  unfoldable pub remove_as_neighbor : ℤ → TrawlerService D → TrawlerService D
  remove_as_neighbor dying t = tell_removed (others dying (addresses t.emulated_nodes)) dying t

  unfoldable pub fail_node : ℤ → TrawlerService D → TrawlerService D
  fail_node a t = elim (get_emulated_node a t.emulated_nodes) [
    | none ↦ t
    | some n ↦ remove_as_neighbor a (tell a reset t)
  ]

  -- The loop of `updateNeighbors` for the node that starts.
  unfoldable pub tell_started : List ℤ → ℤ → EmulatedNode → TrawlerService D → TrawlerService D
  tell_started [] started s t = t
  tell_started (addr ∷ rest) started s t =
      tell_started rest started s (elim (get_emulated_node addr t.emulated_nodes) [
        | none ↦ t
        | some n ↦
            if n.fish_addr ==ℤ started
            then t
            else if_linked addr n s.fish_addr
                (λ u. send_add_neighbor started s n (send_add_neighbor addr n s u)) t
      ])

  unfoldable pub update_neighbors : ℤ → TrawlerService D → TrawlerService D
  update_neighbors fish_addr t = elim (get_emulated_node fish_addr t.emulated_nodes) [
    | none ↦ t
    | some s ↦ tell_started (addresses t.emulated_nodes) fish_addr s t
  ]

  unfoldable pub restart_node : ℤ → TrawlerService D → TrawlerService D
  restart_node a t = update_neighbors a t

  -- A node that has quit goes, and the nodes that are left are told.
  unfoldable pub drop_node : ℤ → EmulatedNode → TrawlerService D → TrawlerService D
  drop_node addr n t =
      let nodes = erase addr_eq addr t.emulated_nodes in
      tell_removed (addresses nodes) n.fish_addr (record t { emulated_nodes = nodes })

  unfoldable pub check_quit : List ℤ → TrawlerService D → TrawlerService D
  check_quit [] t = t
  check_quit (addr ∷ rest) t = check_quit rest (elim (get_emulated_node addr t.emulated_nodes) [
    | none ↦ t
    | some n ↦ if not (is_alive n) then drop_node addr n t else t
  ])

  unfoldable pub check_nodes_quit : TrawlerService D → TrawlerService D
  check_nodes_quit t = check_quit (addresses t.emulated_nodes) t

  -- TrawlerCommandsParser: the topology changes, and the nodes are told.
  abbrev pub trawler_hooks : Hooks D (TrawlerService D)
  trawler_hooks = record {
    exit_cmd =
        λ cmd t. if bytes_eq (token 0 cmd) (codes "exit") then record t { exited = true } else t;
    parse_node_cmd = λ cmd t. t;
    create_new_edge = λ a b options t.
        start_edge a b (record t {
          topology = Topology.new_edge (default_options double) a b options t.topology;
        });
    fail_edge_hook = λ a b t.
        let (topology, found) = Topology.fail_edge (default_options double) a b t.topology in
        let t' : TrawlerService D = record t { topology = topology } in
        if found then fail_edge a b t' else t';
    fail_node_hook =
        λ a t. let t' = fail_node a t in record t' { topology = Topology.fail_node a t'.topology };
    restart_edge_hook = λ a b t.
        let (topology, found) = Topology.restart_edge (default_options double) a b t.topology in
        let t' : TrawlerService D = record t { topology = topology } in
        if found then start_edge a b t' else t';
    restart_node_hook =
        λ a t. restart_node a (record t { topology = Topology.restart_node a t.topology });
    print = λ bytes t. t;
  }

  -- remove(): the loop over the table, in which the dying node goes and the others are told.
  unfoldable pub remove_from : List ℤ → ℤ → TrawlerService D → TrawlerService D
  remove_from [] dying t = t
  remove_from (addr ∷ rest) dying t =
      remove_from rest dying (elim (get_emulated_node addr t.emulated_nodes) [
        | none ↦ t
        | some n ↦
            if n.fish_addr ==ℤ dying
            then record t { emulated_nodes = erase addr_eq addr t.emulated_nodes }
            else if_linked addr n dying (send_remove_neighbor addr dying) t
      ])

  unfoldable pub remove_node : EmulatedNode → TrawlerService D → TrawlerService D
  remove_node dying t = remove_from (addresses t.emulated_nodes) dying.fish_addr t
