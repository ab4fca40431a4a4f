-- ===== src/Sim/Edge.antt =====
-- include/nb/edge.hpp, edge_options.hpp, emulated_link.hpp, src/sim/edge.cpp and
-- src/emu/emulated_link.cpp: a link that paces packets by its bandwidth, drops what would wait too
-- long, and loses some. Where the code draws from its generator, the value drawn is an argument.
pub mod Pacing
use cpp_tcp.Base.{ℕ, Bool, true, false, not, ◌&&◌, ◌||◌, Option, none, some, ltb, if◌then◌else◌}
use cpp_tcp.Base.Int.{ℤ, pos, minus_one, ◌+ℤ◌, ◌-ℤ◌, ◌*ℤ◌, ltb_ℤ, ◌==ℤ◌, max_ℤ, quot_ℤ}
use cpp_tcp.Base.Double.{DoubleOps}
use cpp_tcp.Net.Packet
use cpp_tcp.Core.Runtime.{Stats, packet_dropped, packet_lost}

pub record EdgeOptions (D : Type 0) : Type 0 where
  pub loss_rate : D
  pub delay_ms : ℤ
  pub bw_bytes_per_sec : ℤ
  pub buffering_ms : ℤ

pub record Edge (D : Type 0) : Type 0 where
  pub a : ℤ
  pub b : ℤ
  pub live : Bool
  pub next_send_time_a : ℤ
  pub next_send_time_b : ℤ
  pub options : EdgeOptions D

pub record EmulatedLink (D : Type 0) : Type 0 where
  pub options : EdgeOptions D
  pub next_send_time : ℤ

-- A packet of `size` bytes that is handed over at `now_micros` has left at this time.
unfoldable pub finish_time : {D : Type 0} → EdgeOptions D → ℤ → ℤ → ℤ → ℤ
finish_time options send_time size now_micros =
    max_ℤ now_micros send_time +ℤ quot_ℤ (size *ℤ pos 1_000_000) options.bw_bytes_per_sec

-- It would wait for longer than the buffer holds packets.
unfoldable pub overflows : {D : Type 0} → EdgeOptions D → ℤ → ℤ → Bool
overflows options finish now_micros =
    ltb_ℤ (options.buffering_ms *ℤ pos 1000) (finish -ℤ now_micros)

module _ {D : Type 0} (double : DoubleOps D) where
  -- A declared option that no command sets.
  abbrev pub default_options : EdgeOptions D
  default_options = record {
    loss_rate = double.literal 0 1;
    delay_ms = pos 1;
    bw_bytes_per_sec = pos 10_000;
    buffering_ms = pos 250;
  }

  -- `unit_(rng_) < lossRate`, with the value drawn.
  abbrev pub loses : D → EdgeOptions D → Bool
  loses draw options = double.less draw options.loss_rate

module _ {D : Type 0} where
  -- The constructor.
  abbrev pub make : ℤ → ℤ → EdgeOptions D → Edge D
  make a b options = record {
    a = a;
    b = b;
    live = true;
    next_send_time_a = pos 0;
    next_send_time_b = pos 0;
    options = options;
  }

  -- The constructor of an emulated link.
  abbrev pub make_link : EdgeOptions D → EmulatedLink D
  make_link options = record { options = options; next_send_time = pos 0 }

  unfoldable pub is_edge : ℤ → ℤ → Edge D → Bool
  is_edge a b e = e.a ==ℤ a && e.b ==ℤ b || e.a ==ℤ b && e.b ==ℤ a

  abbrev pub set_state : Bool → Edge D → Edge D
  set_state live e = record e { live = live }

  abbrev pub set_options : EdgeOptions D → Edge D → Edge D
  set_options options e = record e { options = options }

  -- The reference `sendTime`: the field of the side that sends.
  abbrev pub send_time : ℤ → Edge D → ℤ
  send_time src e = if src ==ℤ e.a then e.next_send_time_a else e.next_send_time_b

  abbrev pub set_send_time : ℤ → ℤ → Edge D → Edge D
  set_send_time src t e =
      if src ==ℤ e.a then record e { next_send_time_a = t } else record e { next_send_time_b = t }

module _ {D : Type 0} (double : DoubleOps D) where
  -- `none`: it throws `std::invalid_argument`. The draw is made only while the edge is live.
  unfoldable pub schedule_pkt : D → ℤ → ℤ → ℤ → Edge D × Stats → Option (Edge D × Stats × ℤ)
  schedule_pkt draw src size now_micros (e, stats) =
      let finish : ℤ = finish_time e.options (send_time src e) size now_micros in
      if ltb_ℤ (pos Packet.max_packet_size) size
      then none
      else if not (src ==ℤ e.a) && not (src ==ℤ e.b)
      then none
      else if overflows e.options finish now_micros
      then some (e, packet_dropped stats, minus_one)
      else if not e.live || loses double draw e.options
      then some (set_send_time src finish e, packet_lost stats, minus_one)
      else some (set_send_time src finish e, stats, finish +ℤ e.options.delay_ms *ℤ pos 1000)

  -- EmulatedLink::schedulePkt
  unfoldable pub schedule_link_pkt : D → ℤ → ℤ → EmulatedLink D × Stats → EmulatedLink D × Stats × ℤ
  schedule_link_pkt draw size now_micros (l, stats) =
      let finish : ℤ = finish_time l.options l.next_send_time size now_micros in
      if overflows l.options finish now_micros
      then (l, packet_dropped stats, minus_one)
      else if loses double draw l.options
      then (record l { next_send_time = finish }, packet_lost stats, minus_one)
      else (record l { next_send_time = finish }, stats, finish +ℤ l.options.delay_ms *ℤ pos 1000)
