-- ===== src/Sim/Edge/Pacing.antt =====
-- The times at which an edge delivers packets.
use cpp_tcp.Base.{◌≡◌, ◌≢◌, ◌⊎◌, inl, inr, true, false, some, arith, Bool-cases, ap, ◌∙◌, not, ◌||◌}
use cpp_tcp.Base.Int.{
  ℤ, pos, negsuc, minus_one, ◌+ℤ◌, ◌*ℤ◌, ◌≤ℤ◌, ◌<ℤ◌, +ℤ_parts, -ℤ_parts, quot_ℤ, int_laws,
}
use cpp_tcp.Base.Double.{DoubleOps}
use cpp_tcp.Core.Runtime.{Stats, packet_dropped, packet_lost}
use cpp_tcp.Sim.Edge.{
  Edge, EdgeOptions, loses, finish_time, overflows, send_time, set_send_time, schedule_pkt,
}

-- A positive bandwidth, and delays that are not negative: what the division and the clock need.
pub record IsUsable {D : Type 0} (o : EdgeOptions D) : Type 0 where
  pub bw_pos : pos 0 <ℤ o.bw_bytes_per_sec
  pub delay_nonneg : pos 0 ≤ℤ o.delay_ms

transmit_nonneg :
    (size bw : ℤ) → pos 0 ≤ℤ size → pos 0 <ℤ bw → pos 0 ≤ℤ quot_ℤ (size *ℤ pos 1_000_000) bw
unfolding ◌*ℤ◌
transmit_nonneg (pos n) (pos b) h k = ground arith
transmit_nonneg (negsuc n) b h k = absurd (omega arith)
transmit_nonneg (pos n) (negsuc b) h k = absurd (omega arith)

module _ {D : Type 0} (o : EdgeOptions D) (send size now : ℤ) (u : IsUsable o)
    (h : pos 0 ≤ℤ size) where
  pub finish_time-ge_now : now ≤ℤ finish_time o send size now
  unfolding finish_time
  finish_time-ge_now = ground (
    arith,
    transmit_nonneg size o.bw_bytes_per_sec h u.bw_pos,
    +ℤ_parts now (quot_ℤ (size *ℤ pos 1_000_000) o.bw_bytes_per_sec),
    +ℤ_parts send (quot_ℤ (size *ℤ pos 1_000_000) o.bw_bytes_per_sec),
  )

  pub finish_time-ge_send : send ≤ℤ finish_time o send size now
  unfolding finish_time
  finish_time-ge_send = ground (
    arith,
    transmit_nonneg size o.bw_bytes_per_sec h u.bw_pos,
    +ℤ_parts now (quot_ℤ (size *ℤ pos 1_000_000) o.bw_bytes_per_sec),
    +ℤ_parts send (quot_ℤ (size *ℤ pos 1_000_000) o.bw_bytes_per_sec),
  )

module _ {D : Type 0} (o : EdgeOptions D) (send size now : ℤ) (u : IsUsable o)
    (h : pos 0 ≤ℤ size) where
  -- What the test for the buffer leaves.
  arrival_bounds :
      overflows o (finish_time o send size now) now ≡ false
      → (now +ℤ o.delay_ms *ℤ pos 1000 ≤ℤ finish_time o send size now +ℤ o.delay_ms *ℤ pos 1000)
        × (finish_time o send size now +ℤ o.delay_ms *ℤ pos 1000
            ≤ℤ now +ℤ o.buffering_ms *ℤ pos 1000 +ℤ o.delay_ms *ℤ pos 1000)
  unfolding overflows
  arrival_bounds room =
      let f = finish_time o send size now in
      let k : f ≤ℤ now +ℤ o.buffering_ms *ℤ pos 1000 =
        ground (arith, +ℤ_parts now (o.buffering_ms *ℤ pos 1000), -ℤ_parts f now) in
      (omega (int_laws, finish_time-ge_now o send size now u h), omega int_laws)

-- The transmission starts no earlier than the one before it on this side has ended.
finish_time-spacing :
    {D : Type 0} (o : EdgeOptions D) (send size now : ℤ)
    → send +ℤ quot_ℤ (size *ℤ pos 1_000_000) o.bw_bytes_per_sec ≤ℤ finish_time o send size now
unfolding finish_time
finish_time-spacing o send size now = ground (
  arith,
  +ℤ_parts now (quot_ℤ (size *ℤ pos 1_000_000) o.bw_bytes_per_sec),
  +ℤ_parts send (quot_ℤ (size *ℤ pos 1_000_000) o.bw_bytes_per_sec),
)

send_time-set_send_time :
    {D : Type 0} (src t : ℤ) (e : Edge D) → send_time src (set_send_time src t e) ≡ t
send_time-set_send_time src t e = ground arith

options-set_send_time :
    {D : Type 0} (src t : ℤ) (e : Edge D) → (set_send_time src t e).options ≡ e.options
options-set_send_time src t e = ground arith

module _ {D : Type 0} (double : DoubleOps D) where
  -- The time at which the last byte of this packet has left the sender.
  abbrev pub sent_at : ℤ → ℤ → ℤ → Edge D → ℤ
  sent_at src size now e = finish_time e.options (send_time src e) size now

  delivered :
      (draw : D) (src size now : ℤ) (e e' : Edge D) (stats stats' : Stats) (t : ℤ)
      → schedule_pkt double draw src size now (e, stats) ≡ some (e', stats', t)
      → t ≢ minus_one
      → (e' ≡ set_send_time src (sent_at src size now e) e)
        × (stats' ≡ stats)
        × (t ≡ sent_at src size now e +ℤ e.options.delay_ms *ℤ pos 1000)
        × (overflows e.options (sent_at src size now e) now ≡ false)
  unfolding schedule_pkt
  delivered draw src size now e e' stats stats' t h d = ground arith

  -- On a link with a positive bandwidth and a delay that is not negative, a packet of 0 to 128
  -- bytes from one of the ends is dropped, lost or delivered. A dropped one leaves the link as it
  -- was, and a lost one takes up its time on the link; each is counted once, and both are reported
  -- by -1. A delivered one is not counted, and the link is live; it arrives between its delay
  -- after now and its delay and the buffering time after now.
  pub schedule_pkt_outcome :
      (draw : D) (src size now : ℤ) (e : Edge D) (stats : Stats)
      → IsUsable e.options
      → pos 0 ≤ℤ size
      → size ≤ℤ pos 128
      → (src ≡ e.a) ⊎ (src ≡ e.b)
      → (schedule_pkt double draw src size now (e, stats)
          ≡ some (e, packet_dropped stats, minus_one))
        ⊎ (schedule_pkt double draw src size now (e, stats)
            ≡ some (set_send_time src (sent_at src size now e) e, packet_lost stats, minus_one))
        ⊎ ((t : ℤ) × (schedule_pkt double draw src size now (e, stats)
              ≡ some (set_send_time src (sent_at src size now e) e, stats, t))
            × (now +ℤ e.options.delay_ms *ℤ pos 1000 ≤ℤ t)
            × (t ≤ℤ now +ℤ e.options.buffering_ms *ℤ pos 1000 +ℤ e.options.delay_ms *ℤ pos 1000)
            × (e.live ≡ true))
  unfolding schedule_pkt
  schedule_pkt_outcome draw src size now e stats u h k ends =
      elim (Bool-cases (overflows e.options (sent_at src size now e) now)) [
        | inl full ↦ inl (ground arith)
        | inr room ↦ elim (Bool-cases (not e.live || loses double draw e.options)) [
          | inl lost ↦ inr (inl (ground arith))
          | inr kept ↦ inr (
              inr (
                sent_at src size now e +ℤ e.options.delay_ms *ℤ pos 1000,
                ground arith,
                (arrival_bounds e.options (send_time src e) size now u h room).0,
                (arrival_bounds e.options (send_time src e) size now u h room).1,
                ground arith,
              ))
        ]
      ]

  -- Of two packets that one end sends over the link one after the other, and that are neither
  -- dropped nor lost, the second arrives at least its own transmission time after the first.
  pub schedule_pkt_fifo :
      (draw₁ draw₂ : D) (src size₁ size₂ now₁ now₂ : ℤ) (e e₁ e₂ : Edge D)
      (stats stats₁ stats₂ : Stats) (t₁ t₂ : ℤ)
      → schedule_pkt double draw₁ src size₁ now₁ (e, stats) ≡ some (e₁, stats₁, t₁)
      → schedule_pkt double draw₂ src size₂ now₂ (e₁, stats₁) ≡ some (e₂, stats₂, t₂)
      → t₁ ≢ minus_one
      → t₂ ≢ minus_one
      → t₁ +ℤ quot_ℤ (size₂ *ℤ pos 1_000_000) e.options.bw_bytes_per_sec ≤ℤ t₂
  schedule_pkt_fifo draw₁ draw₂ src size₁ size₂ now₁ now₂ e e₁ e₂ stats stats₁ stats₂ t₁ t₂ h₁ h₂ d₁
        d₂ =
      let (s₁, _, a₁, _) = delivered draw₁ src size₁ now₁ e e₁ stats stats₁ t₁ h₁ d₁ in
      let (_, _, a₂, _) = delivered draw₂ src size₂ now₂ e₁ e₂ stats₁ stats₂ t₂ h₂ d₂ in
      let f = sent_at src size₁ now₁ e in
      let o : e₁.options ≡ e.options =
        ap (λ (x : Edge D). x.options) s₁ ∙ options-set_send_time src f e in
      let n : send_time src e₁ ≡ f = ap (send_time src) s₁ ∙ send_time-set_send_time src f e in
      rw (a₁, a₂, o, n) (omega (int_laws, finish_time-spacing e.options f size₂ now₂))
