-- ===== src/Tests/Trawler.antt =====
-- A Trawler to which two nodes of one host connect, the second one with a port that is in use at first.
use cpp_tcp.Base.{ℕ, ◌≡◌, refl, true, none, some, List, [], ◌∷◌}
use cpp_tcp.Base.Int.{ℤ, pos, minus_one}
use cpp_tcp.Base.Text.{codes}
use cpp_tcp.Sim.Topology.{Topology}
use cpp_tcp.Sim.Topology
use cpp_tcp.Emu.Trawler.{
  TrawlerService, free_fish_addr, free_from, port_conflict, check_nodes_quit, check_quit,
  update_neighbors, tell_started, send_add_neighbor, write_line,
}
use cpp_tcp.Emu.Trawler.Accept.{
  Connection, make_service, admit, assign_addr, greet, resume, serve, serve_all, run,
}
use cpp_tcp.Emu.Trawler.Idents.{Ident, idents}
use cpp_tcp.Emu.Trawler.Serving.{Distinct, run-Distinct}
use cpp_tcp.Tests.{thousandths}
use cpp_tcp.Tests.Text.{decimal, whole}

abbrev call : List ℕ → Connection
call port = record { now_micros = pos 0; port_line = some port; peer_address = codes "10.0.0.1" }

abbrev calls : List Connection
calls = call (codes "5000") ∷ call (codes "5000") ∷ call (codes "80") ∷ call (codes "5001") ∷ []

abbrev everyone : Topology ℤ
everyone = Topology.init true

abbrev served : TrawlerService ℤ
served =
    serve_all thousandths decimal whole (λ addr n. true) calls minus_one (make_service everyone)

run-Distinct_example : Distinct thousandths decimal whole (λ addr n. true) served
unfolding run
run-Distinct_example =
    run-Distinct thousandths decimal whole (λ addr n. true) none (pos 0) everyone calls served refl

abbrev at : ℤ → ℤ → Ident
at addr port = record { key = addr; addr = addr; ip = codes "10.0.0.1"; port = port }

served_two : idents served.emulated_nodes ≡ at (pos 0) (pos 5000) ∷ at (pos 1) (pos 5001) ∷ []
unfolding serve_all serve resume greet admit assign_addr free_fish_addr free_from port_conflict
    check_nodes_quit check_quit update_neighbors tell_started Topology.get_live_edge
    Topology.live_only Topology.get_edge Topology.find_edge Topology.init Topology.is_node_alive
    send_add_neighbor write_line
served_two = refl
