-- ===== src/Sim/Simulator/Sending.antt =====
-- What a packet that is sent leads to.
use cpp_tcp.Base.{
  ℕ, zero, suc, ◌≡◌, ◌≢◌, ◌↔◌, inl, inr, refl, true, false, Option, none, some, List, [], ◌∷◌,
  length, Bool-cases, Option-cases, arith,
}
use cpp_tcp.Base.Int.{ℤ, pos, ◌+ℤ◌, ◌≤ℤ◌, ==ℤ_refl}
use cpp_tcp.Base.Double.{DoubleOps}
use cpp_tcp.Net.Packet
use cpp_tcp.Core.Runtime
use cpp_tcp.Core.Runtime.{
  RuntimeManager, Stats, packet_dropped, packet_lost, accepts, add_event_at_micros,
}
use cpp_tcp.Sim.Edge.{Edge, EdgeOptions, default_options, make, is_edge, schedule_pkt}
use cpp_tcp.Sim.Topology.{Topology, find_edge, get_edge, live_only, get_live_edge}
use cpp_tcp.Sim.Simulator.{Simulator, send_over, send_to, broadcast, route, send_pkt}

module _ {D : Type 0} where
  find_edge_ends :
      (a b : ℤ) (es : List (Edge D)) (e : Edge D) → find_edge a b es ≡ some e → is_edge a b e ≡ true
  unfolding find_edge
  find_edge_ends a b [] e h = cc
  find_edge_ends a b (x ∷ es) e h = ground (arith, find_edge_ends a b es e)

  make_ends : (a b : ℤ) (o : EdgeOptions D) → is_edge a b (make a b o) ≡ true
  unfolding is_edge
  make_ends a b o = ground (arith, ==ℤ_refl a, ==ℤ_refl b)

  get_edge_ends :
      (defaults : EdgeOptions D) (a b : ℤ) (t : Topology D) (e : Edge D)
      → (get_edge defaults a b t).1 ≡ some e
      → is_edge a b e ≡ true
  unfolding get_edge
  get_edge_ends defaults a b t e h = elim (Option-cases (find_edge a b t.edges)) [
    | inl n ↦ ground (arith, make_ends a b defaults)
    | inr (x, f) ↦ ground (arith, find_edge_ends a b t.edges x)
  ]

  live_only-some :
      (a b : ℤ) (r : Topology D × Option (Edge D)) (e : Edge D)
      → (live_only a b r).1 ≡ some e
      → (r.1 ≡ some e) × (e.live ≡ true)
  unfolding live_only
  live_only-some a b (t, none) e h = cc
  live_only-some a b (t, some x) e h = ground arith

  -- A live edge that is found lies between the two nodes.
  pub get_live_edge_ends :
      (defaults : EdgeOptions D) (a b : ℤ) (t : Topology D) (e : Edge D)
      → (get_live_edge defaults a b t).1 ≡ some e
      → (is_edge a b e ≡ true) × (e.live ≡ true)
  unfolding get_live_edge
  get_live_edge_ends defaults a b t e h =
      let (found, live) = live_only-some a b (get_edge defaults a b t) e h in
      (get_edge_ends defaults a b t e found, live)

module _ {D : Type 0} (double : DoubleOps D) where
  schedule_pkt_total :
      (draw : D) (from to size now : ℤ) (e : Edge D) (stats : Stats)
      → is_edge from to e ≡ true
      → size ≤ℤ pos Packet.max_packet_size
      → schedule_pkt double draw from size now (e, stats) ≢ none
  unfolding schedule_pkt is_edge
  schedule_pkt_total draw from to size now e stats h k = ground arith

pub accepts_size :
    (from to : ℤ) (pkt : List ℕ)
    → accepts from to pkt ≡ true
    → pos (length pkt) ≤ℤ pos Packet.max_packet_size
unfolding accepts
accepts_size from to pkt h = ground arith

module _ {D N K : Type 0} (double : DoubleOps D) (draws : ℕ → D) where
  send_over_total :
      (from to : ℤ) (pkt : List ℕ) (s : Simulator D N K) (edge : Option (Edge D))
      → ((e : Edge D) → edge ≡ some e → is_edge from to e ≡ true)
      → pos (length pkt) ≤ℤ pos Packet.max_packet_size
      → send_over double draws from to pkt s edge ≢ none
  unfolding send_over
  send_over_total from to pkt s none ends h = ground arith
  send_over_total from to pkt s (some e) ends h = ground (
    arith,
    schedule_pkt_total double (draws s.drawn) from to (pos (length pkt)) s.now_micros e
        s.manager.stats (ends e refl) h,
  )

  send_to_total :
      (from to : ℤ) (pkt : List ℕ) (s : Simulator D N K)
      → pos (length pkt) ≤ℤ pos Packet.max_packet_size
      → send_to double draws from to pkt s ≢ none
  unfolding send_to
  send_to_total from to pkt s h =
      let found = get_live_edge (default_options double) from to s.topology in
      send_over_total from to pkt (record s { topology = found.0 }) found.1
        (λ e g. (get_live_edge_ends (default_options double) from to s.topology e g).0) h

  broadcast_total :
      (left i : ℕ) (from : ℤ) (pkt : List ℕ) (s : Simulator D N K)
      → pos (length pkt) ≤ℤ pos Packet.max_packet_size
      → broadcast double draws left i from pkt s ≢ none
  unfolding broadcast
  broadcast_total zero i from pkt s h = ground arith
  broadcast_total (suc left) i from pkt s h =
      elim (Option-cases (send_to double draws from (pos i) pkt s)) [
        | inl e ↦ absurd (send_to_total from (pos i) pkt s h e)
        | inr ((s', found), e) ↦ ground (arith, broadcast_total left (suc i) from pkt s' h)
      ]

  route_total :
      (from to : ℤ) (pkt : List ℕ) (s : Simulator D N K)
      → pos (length pkt) ≤ℤ pos Packet.max_packet_size
      → route double draws from to pkt s ≢ none
  unfolding route
  route_total from to pkt s h =
      ground (arith, send_to_total from to pkt s h, broadcast_total (length s.nodes) 0 from pkt s h)

  -- `send_pkt` throws exactly where the tests of the manager refuse the packet, and so before anything
  -- has changed: no link that is found throws, for one receiver or for all.
  pub send_pkt-eq_none :
      (from to : ℤ) (pkt : List ℕ) (s : Simulator D N K)
      → (send_pkt double draws from to pkt s ≡ none) ↔ (accepts from to pkt ≡ false)
  unfolding send_pkt Runtime.send_pkt
  send_pkt-eq_none from to pkt s = elim (Bool-cases (accepts from to pkt)) [
    | inl ok ↦
        let counted : Simulator D N K = record s {
          manager = record s.manager {
            stats = record s.manager.stats { pkts_sent = s.manager.stats.pkts_sent +ℤ pos 1 };
          };
        } in
        ground (arith, route_total from to pkt counted (accepts_size from to pkt ok))
    | inr bad ↦ ground arith
  ]
