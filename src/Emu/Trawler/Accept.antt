-- ===== src/Emu/Trawler/Accept.antt =====
-- TrawlerService::run: the rounds of its loop. What has been read of a new connection is an argument;
-- the sockets themselves and the lines on the console are left out.
use cpp_tcp.Base.{ℕ, Bool, false, ◌&&◌, ◌||◌, Option, none, some, List, [], ◌∷◌, if◌then◌else◌}
use cpp_tcp.Base.Int.{ℤ, pos, minus_one, ltb_ℤ, ◌==ℤ◌}
use cpp_tcp.Base.Double.{DoubleOps}
use cpp_tcp.Base.Assoc.{insert}
use cpp_tcp.Base.Text.{TextOps}
use cpp_tcp.Net.Packet
use cpp_tcp.Sim.Parser.{parse_line, parse_file, parse_remainder}
use cpp_tcp.Sim.Topology.{Topology}
use cpp_tcp.Emu.ArpCommands.{FormatOps}
use cpp_tcp.Emu.Trawler.{
  TrawlerService, addr_eq, make_node, free_fish_addr, port_conflict, update_neighbors,
  check_nodes_quit, trawler_hooks,
}

-- What `accept` and the reading of a line give. `none`: the peer has closed the connection.
pub record Connection : Type 0 where
  pub now_micros : ℤ
  pub port_line : Option (List ℕ)
  pub peer_address : List ℕ

abbrev pub make_service : {D : Type 0} → Topology D → TrawlerService D
make_service topology = record {
  topology = topology;
  emulated_nodes = [];
  topo_lines = none;
  exited = false;
}

abbrev pub lowest_port : ℤ
lowest_port = pos 1024

module _ {D : Type 0} (double : DoubleOps D) (text : TextOps D) (fmt : FormatOps D)
    (delivers : ℤ → ℕ → Bool) where
  -- A node with a port that may be used: the line that it is sent, with its address or with 255.
  unfoldable pub assign_addr :
      ℤ → List ℕ → ℤ → TrawlerService D → TrawlerService D × Option (List ℕ)
  assign_addr fish_addr ip_address port t =
      let nodes = insert addr_eq fish_addr (make_node fish_addr ip_address port) t.emulated_nodes in
      if fish_addr ==ℤ minus_one then (t, some (text.to_string Packet.broadcast_address)) else (
        update_neighbors double text fmt delivers fish_addr (record t { emulated_nodes = nodes }),
        some (text.to_string fish_addr),
      )

  unfoldable pub admit : ℤ → List ℕ → TrawlerService D → TrawlerService D × Option (List ℕ)
  admit port ip_address t =
      if ltb_ℤ port lowest_port || port_conflict ip_address port t.emulated_nodes
      then (t, some (text.to_string Packet.broadcast_address))
      else assign_addr (free_fish_addr t.emulated_nodes) ip_address port t

  -- A line that is missing or no number ends the connection without an answer.
  unfoldable pub greet : Connection → TrawlerService D → TrawlerService D × Option (List ℕ)
  greet c t = elim c.port_line [
    | none ↦ (t, none)
    | some line ↦ elim (text.stoi line) [
      | none ↦ (t, none)
      | some port ↦ admit port c.peer_address t
    ]
  ]

  -- The rest of the topology file, once its time has come.
  unfoldable pub resume : ℤ → ℤ → TrawlerService D → TrawlerService D × ℤ
  resume defer_till now t =
      let (t', rest, till) =
        parse_remainder (parse_line double text (trawler_hooks double text fmt delivers)) now
          t.topo_lines t in
      if ltb_ℤ minus_one defer_till && ltb_ℤ defer_till now
      then (record t' { topo_lines = rest }, till)
      else (t, defer_till)

  -- One round of the loop of `run`: the state, the time to go on at, and the answer.
  unfoldable pub serve : Connection → ℤ → TrawlerService D → TrawlerService D × ℤ × Option (List ℕ)
  serve c defer_till t =
      let (t₁, till) =
        resume defer_till c.now_micros (check_nodes_quit double text fmt delivers t) in
      let (t₂, answer) = greet c t₁ in (t₂, till, answer)

  -- The rounds for a list of connections, unless the program has been ended.
  unfoldable pub serve_all : List Connection → ℤ → TrawlerService D → TrawlerService D
  serve_all [] defer_till t = t
  serve_all (c ∷ cs) defer_till t =
      let (t', till, answer) = serve c defer_till t in
      let more = serve_all cs till t' in if t.exited then t else more

  abbrev pub after_file :
      List Connection
      → Option (TrawlerService D × Option (List (List ℕ)) × ℤ)
      → Option (TrawlerService D)
  after_file cs none = none
  after_file cs (some (t, rest, till)) = some (serve_all cs till (record t { topo_lines = rest }))

  -- `topo_file` is what can be read of the topology file, if its name is not empty. `none`: it throws.
  unfoldable pub run :
      Option (Option (List (List ℕ))) → ℤ → Topology D → List Connection → Option (TrawlerService D)
  run topo_file now topology cs =
      let t = make_service topology in
      elim topo_file [
        | none ↦ some (serve_all cs minus_one t)
        | some file ↦ after_file cs (
            parse_file (parse_line double text (trawler_hooks double text fmt delivers)) file now t)
      ]
