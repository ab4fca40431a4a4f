-- ===== src/Tests/Links.antt =====
-- A slow link of 1000 bytes per second between the nodes 1 and 2, and a queue of three events.
use cpp_tcp.Base.{
  ℕ, ◌≡◌, refl, true, false, none, some, [], ◌∷◌, ◌++◌, ◌⊎◌, inl, arith, if◌then◌else◌,
}
use mathlib.Core.Option
use cpp_tcp.Base.Int.{ℤ, pos, minus_one, ◌+ℤ◌, ◌-ℤ◌, ◌*ℤ◌, ◌≤ℤ◌, ◌==ℤ◌, quot_ℤ}
use cpp_tcp.Core.Runtime.{Stats, packet_dropped, packet_lost}
use cpp_tcp.Core.EventQueue.{ScheduledEvent, add_event, get_next_event, remove_next_event}
use cpp_tcp.Core.EventQueue.Order.{
  AllFrom, IsSorted, up_to, after, add_all, add_event-split, remove_next_event-add_all,
}
use cpp_tcp.Sim.Edge.{
  Edge, EdgeOptions, make, set_state, set_send_time, schedule_pkt, overflows, finish_time,
}
use cpp_tcp.Sim.Edge.Pacing.{IsUsable, sent_at, schedule_pkt_outcome, schedule_pkt_fifo}
use cpp_tcp.Sim.Topology.{
  Topology, init, instance_of, reset, find_edge, get_edge, get_live_edge, change_edge, change_found,
  restart_edge, fail_node, restart_node, is_node_alive,
}
use cpp_tcp.Sim.Topology.Links.{
  same_pair, find_edge-change_edge, get_live_edge-restart_edge, is_node_alive_after,
}
use cpp_tcp.Tests.{thousandths}

abbrev pub options : EdgeOptions ℤ
options = record {
  loss_rate = pos 0;
  delay_ms = pos 5;
  bw_bytes_per_sec = pos 1000;
  buffering_ms = pos 250;
}

abbrev link : Edge ℤ
link = make (pos 1) (pos 2) options

abbrev stats : Stats
stats = record { pkts_sent = pos 0; pkts_dropped = pos 0; pkts_lost = pos 0 }

pub options-IsUsable : IsUsable options
options-IsUsable = record { bw_pos = omega arith; delay_nonneg = omega arith }

schedule_pkt_outcome_example :
    (schedule_pkt thousandths (pos 500) (pos 1) (pos 100) (pos 0) (link, stats)
      ≡ some (link, packet_dropped stats, minus_one))
    ⊎ (schedule_pkt thousandths (pos 500) (pos 1) (pos 100) (pos 0) (link, stats)
        ≡ some (
          set_send_time (pos 1) (sent_at thousandths (pos 1) (pos 100) (pos 0) link) link,
          packet_lost stats,
          minus_one,
        ))
    ⊎ ((t : ℤ) × (schedule_pkt thousandths (pos 500) (pos 1) (pos 100) (pos 0) (link, stats)
          ≡ some (
            set_send_time (pos 1) (sent_at thousandths (pos 1) (pos 100) (pos 0) link) link,
            stats,
            t,
          ))
        × (pos 0 +ℤ pos 5 *ℤ pos 1000 ≤ℤ t)
        × (t ≤ℤ pos 0 +ℤ pos 250 *ℤ pos 1000 +ℤ pos 5 *ℤ pos 1000)
        × (link.live ≡ true))
schedule_pkt_outcome_example =
    schedule_pkt_outcome thousandths (pos 500) (pos 1) (pos 100) (pos 0) link stats options-IsUsable
      (omega arith) (omega arith) (inl refl)

-- The link after one packet and after two.
abbrev link₁ : Edge ℤ
link₁ = record link { next_send_time_a = pos 100_000 }

abbrev link₂ : Edge ℤ
link₂ = record link { next_send_time_a = pos 150_000 }

schedule_pkt_fifo_example :
    pos 105_000 +ℤ quot_ℤ (pos 50 *ℤ pos 1_000_000) options.bw_bytes_per_sec ≤ℤ pos 155_000
unfolding schedule_pkt overflows ◌*ℤ◌ ◌-ℤ◌ finish_time ◌+ℤ◌
schedule_pkt_fifo_example =
    schedule_pkt_fifo thousandths (pos 500) (pos 500) (pos 1) (pos 100) (pos 50) (pos 0) (pos 10)
      link link₁ link₂ stats stats stats (pos 105_000) (pos 155_000) refl refl (λ p. cc) (λ p. cc)

abbrev event : ℕ → ℕ → ScheduledEvent ℕ
event t n = record { time_to_occur = pos t; callback = n }

add_event-split_example :
    add_event (event 5 3) (event 5 1 ∷ event 9 2 ∷ [])
    ≡ up_to (pos 5) (event 5 1 ∷ event 9 2 ∷ [])
      ++ (event 5 3 ∷ after (pos 5) (event 5 1 ∷ event 9 2 ∷ []))
add_event-split_example =
    add_event-split (event 5 3) (event 5 1 ∷ event 9 2 ∷ []) ((omega arith, tt), (tt, tt))

remove_next_event-add_all_example :
    (get_next_event (add_all (event 9 2 ∷ event 5 1 ∷ []) []) ≡ some (event 5 1))
    × AllFrom (pos 5) (event 9 2 ∷ [])
    × IsSorted (event 9 2 ∷ [])
unfolding remove_next_event add_all add_event
remove_next_event-add_all_example =
    remove_next_event-add_all (event 9 2 ∷ event 5 1 ∷ []) (event 5 1) (event 9 2 ∷ []) refl

-- Every pair of nodes is linked by default, and 3 has failed.
abbrev topology : Topology ℤ
topology = fail_node (pos 3) (instance_of true (reset none))

find_edge-change_edge_example :
    find_edge (pos 2) (pos 1) (change_edge options (pos 1) (pos 2) false topology).0.edges ≡ (
      if same_pair (pos 1) (pos 2) (pos 2) (pos 1)
      then Option.map (set_state false) (get_edge options (pos 1) (pos 2) topology).1
      else find_edge (pos 2) (pos 1) topology.edges)
find_edge-change_edge_example =
    find_edge-change_edge options (pos 1) (pos 2) (pos 2) (pos 1) false topology

get_live_edge-restart_edge_example :
    (e : Edge ℤ) × ((get_live_edge options
        (pos 2)
        (pos 1)
        (restart_edge options (pos 1) (pos 2) topology).0).1
      ≡ some e)
    × (e.live ≡ true)
unfolding same_pair restart_edge fail_node instance_of init is_node_alive change_found get_edge
    find_edge
get_live_edge-restart_edge_example =
    get_live_edge-restart_edge options (pos 1) (pos 2) (pos 2) (pos 1) topology refl refl refl refl

is_node_alive_after_example :
    (is_node_alive (pos 3) (fail_node (pos 3) topology)
      ≡ (if pos 3 ==ℤ pos 3 then false else is_node_alive (pos 3) topology))
    × (is_node_alive (pos 3) (restart_node (pos 3) topology)
        ≡ (if pos 3 ==ℤ pos 3 then true else is_node_alive (pos 3) topology))
is_node_alive_after_example = is_node_alive_after (pos 3) (pos 3) topology
