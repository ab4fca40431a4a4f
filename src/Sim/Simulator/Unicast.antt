-- ===== src/Sim/Simulator/Unicast.antt =====
-- A packet for a single node.
use cpp_tcp.Base.{
  ℕ, ◌≡◌, ◌⊎◌, inl, inr, refl, sym, ap, ◌∙◌, Bool, true, false, Option, none, some, List, length,
  Bool-cases, Option-cases, arith,
}
use cpp_tcp.Base.Int.{ℤ, pos, negsuc, minus_one, ◌+ℤ◌, ◌*ℤ◌, ◌≤ℤ◌, ◌==ℤ◌, ltb_ℤ, +ℤ_parts, ==ℤ→eq}
use cpp_tcp.Base.Double.{DoubleOps}
use cpp_tcp.Net.Packet
use cpp_tcp.Core.EventQueue.{add_event}
use cpp_tcp.Core.Runtime
use cpp_tcp.Core.Runtime.{
  RuntimeManager, Stats, packet_dropped, packet_lost, accepts, add_event_at_micros,
}
use cpp_tcp.Sim.Edge.{Edge, EdgeOptions, default_options, is_edge, set_send_time, schedule_pkt}
use cpp_tcp.Sim.Edge.Pacing.{IsUsable, sent_at, schedule_pkt_outcome}
use cpp_tcp.Sim.Topology.{get_live_edge}
use cpp_tcp.Sim.Simulator.Sending.{get_live_edge_ends, accepts_size}
use cpp_tcp.Sim.Simulator.{
  Simulator, Callback, deliver, after_schedule, add_delivery, send_over, send_to, route, send_pkt,
}

module _ {D : Type 0} where
  edge_from : (from to : ℤ) (e : Edge D) → is_edge from to e ≡ true → (from ≡ e.a) ⊎ (from ≡ e.b)
  unfolding is_edge
  edge_from from to e h = elim (Bool-cases (e.a ==ℤ from)) [
    | inl same ↦ inl (sym (==ℤ→eq e.a from same))
    | inr other ↦ inr (sym (==ℤ→eq e.b from (ground arith)))
  ]

delay_nonneg : (now d t : ℤ) → pos 0 ≤ℤ now → pos 0 ≤ℤ d → now +ℤ d *ℤ pos 1000 ≤ℤ t → pos 0 ≤ℤ t
unfolding ◌*ℤ◌
delay_nonneg now (pos d) t h k le = ground (arith, +ℤ_parts now (pos d *ℤ pos 1000))
delay_nonneg now (negsuc d) t h k le = absurd (omega arith)

module _ {K : Type 0} where
  -- The manager with one more packet sent.
  abbrev pub counted : RuntimeManager (Callback K) → RuntimeManager (Callback K)
  counted m = record m { stats = record m.stats { pkts_sent = m.stats.pkts_sent +ℤ pos 1 } }

module _ {D K : Type 0} where
  -- What a packet over a live link does to the manager `m`: it is dropped or lost, and counted as
  -- such, or its delivery is added to the queue, for a time between the delay of the link after now
  -- and the delay and the buffering time after now.
  pub data Outcome (from to : ℤ) (pkt : List ℕ) (now : ℤ) (o : EdgeOptions D)
      (m : RuntimeManager (Callback K)) : RuntimeManager (Callback K) → Type 0 where
    dropped : Outcome from to pkt now o m (record m { stats = packet_dropped m.stats })
    lost : Outcome from to pkt now o m (record m { stats = packet_lost m.stats })
    arrives :
        (t : ℤ)
        → now +ℤ o.delay_ms *ℤ pos 1000 ≤ℤ t
        → t ≤ℤ now +ℤ o.buffering_ms *ℤ pos 1000 +ℤ o.delay_ms *ℤ pos 1000
        → Outcome from to pkt now o m (record m {
          sorted_events =
              add_event
                (record { time_to_occur = t; callback = deliver from to pkt })
                m.sorted_events;
        })

module _ {D N K : Type 0} (double : DoubleOps D) (draws : ℕ → D) where
  send_over_lem :
      (from to : ℤ) (pkt : List ℕ) (s : Simulator D N K) (e : Edge D) (r : Edge D × Stats × ℤ)
      → schedule_pkt double
          (draws s.drawn)
          from
          (pos (length pkt))
          s.now_micros
          (e, s.manager.stats)
        ≡ some r
      → send_over double draws from to pkt s (some e)
        ≡ some (after_schedule double draws from to pkt s r, true)
  unfolding send_over
  send_over_lem from to pkt s e r h = ground arith

  after_schedule_arrives :
      (from to t : ℤ) (pkt : List ℕ) (s : Simulator D N K) (e : Edge D)
      → pos 0 ≤ℤ t
      → (after_schedule double draws from to pkt s (e, s.manager.stats, t)).manager
        ≡ record s.manager {
          sorted_events =
              add_event
                (record { time_to_occur = t; callback = deliver from to pkt })
                s.manager.sorted_events;
        }
  unfolding after_schedule add_delivery add_event_at_micros
  after_schedule_arrives from to t pkt s e h =
      let real : (t ==ℤ minus_one) ≡ false = ground arith in
      let later : ltb_ℤ t (pos 0) ≡ false = ground arith in rw (real, later) refl

  abbrev pub Sent :
      ℤ → ℤ → List ℕ → Simulator D N K → EdgeOptions D → Option (Simulator D N K × Bool) → Type 0
  Sent from to pkt s o result =
      (s' : Simulator D N K) × (result ≡ some (s', true))
      × Outcome from to pkt s.now_micros o s.manager s'.manager

  send_over_outcome :
      (from to : ℤ) (pkt : List ℕ) (s : Simulator D N K) (e : Edge D)
      → pos 0 ≤ℤ s.now_micros
      → IsUsable e.options
      → is_edge from to e ≡ true
      → pos (length pkt) ≤ℤ pos Packet.max_packet_size
      → Sent from to pkt s e.options (send_over double draws from to pkt s (some e))
  unfolding after_schedule add_delivery
  send_over_outcome from to pkt s e clock u ends size =
      let busy : Edge D =
        set_send_time from (sent_at double from (pos (length pkt)) s.now_micros e) e in
      elim (schedule_pkt_outcome double (draws s.drawn) from (pos (length pkt)) s.now_micros e
        s.manager.stats u (omega arith) size (edge_from from to e ends)) [
          | inl h ↦
              let r : Edge D × Stats × ℤ = (e, packet_dropped s.manager.stats, minus_one) in
              (
                after_schedule double draws from to pkt s r,
                send_over_lem from to pkt s e r h,
                dropped,
              )
          | inr (inl h) ↦
              let r : Edge D × Stats × ℤ = (busy, packet_lost s.manager.stats, minus_one) in
              (after_schedule double draws from to pkt s r, send_over_lem from to pkt s e r h, lost)
          | inr (inr (t, h, lo, hi, live)) ↦
              let r : Edge D × Stats × ℤ = (busy, s.manager.stats, t) in
              let future : pos 0 ≤ℤ t =
                delay_nonneg s.now_micros e.options.delay_ms t clock u.delay_nonneg lo in
              (
                after_schedule double draws from to pkt s r,
                send_over_lem from to pkt s e r h,
                rw (after_schedule_arrives from to t pkt s busy future) (arrives t lo hi),
              )
        ]

  send_pkt-send_over :
      (from to : ℤ) (pkt : List ℕ) (s : Simulator D N K)
      → accepts from to pkt ≡ true
      → (to ==ℤ Packet.broadcast_address) ≡ false
      → send_pkt double draws from to pkt s
        ≡ send_over double draws from to pkt
            (record s {
              manager = counted s.manager;
              topology = (get_live_edge (default_options double) from to s.topology).0;
            })
            (get_live_edge (default_options double) from to s.topology).1
  unfolding send_pkt route send_to Runtime.send_pkt
  send_pkt-send_over from to pkt s ok one = ground arith

  -- A packet that the manager accepts, for a single node: the packet is counted, and if there is no
  -- live link the call returns false and nothing else of the manager changes. Over a live link with a
  -- positive bandwidth and a delay that is not negative it returns true, and the packet is dropped,
  -- lost, or delivered as the link prescribes.
  pub send_pkt_unicast :
      (from to : ℤ) (pkt : List ℕ) (s : Simulator D N K)
      → pos 0 ≤ℤ s.now_micros
      → accepts from to pkt ≡ true
      → (to ==ℤ Packet.broadcast_address) ≡ false
      → ((e : Edge D)
          → (get_live_edge (default_options double) from to s.topology).1 ≡ some e
          → IsUsable e.options)
      → (((get_live_edge (default_options double) from to s.topology).1 ≡ none)
          × (s' : Simulator D N K) × (send_pkt double draws from to pkt s ≡ some (s', false))
          × (s'.manager ≡ counted s.manager))
        ⊎ ((e : Edge D) × ((get_live_edge (default_options double) from to s.topology).1 ≡ some e)
            × (s' : Simulator D N K) × (send_pkt double draws from to pkt s ≡ some (s', true))
            × Outcome from to pkt s.now_micros e.options (counted s.manager) s'.manager)
  unfolding send_over
  send_pkt_unicast from to pkt s clock ok one usable =
      let found = get_live_edge (default_options double) from to s.topology in
      let s₁ : Simulator D N K = record s { manager = counted s.manager; topology = found.0 } in
      let sent = send_pkt-send_over from to pkt s ok one in
      elim (Option-cases found.1) [
        | inl e ↦ inl (e, s₁, sent ∙ ap (send_over double draws from to pkt s₁) e, refl)
        | inr (edge, e) ↦
            let (ends, live) =
              get_live_edge_ends (default_options double) from to s.topology edge e in
            let (s', r, o) =
              send_over_outcome from to pkt s₁ edge clock (usable edge e) ends
                (accepts_size from to pkt ok) in
            inr (edge, e, s', sent ∙ ap (send_over double draws from to pkt s₁) e ∙ r, o)
      ]
