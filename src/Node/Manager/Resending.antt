-- ===== src/Node/Manager/Resending.antt =====
-- What the retransmission tick sends again.
pub mod Segments
use mathlib.Core.List.Memᴰ
use mathlib.Core.List.{Memᴰ, append-nil, append_assoc}
use cpp_tcp.Base.{
  ℕ, ◌<◌, ◌≡◌, ◌≢◌, refl, sym, ap, subst, ◌∙◌, true, false, Option, none, some, List, [], ◌∷◌, ◌++◌,
  ◌==◌, get_or, length, length-set, get_or-set_self, get_or-set_other, Bool-cases, inl, inr, arith,
  ==_iff,
}
use cpp_tcp.Base.Int.{ℤ, pos, ◌+ℤ◌, ◌*ℤ◌, ◌≤ℤ◌}
use cpp_tcp.Base.Double.{DoubleOps}
use cpp_tcp.Core.Runtime.{accepts}
use cpp_tcp.Net.Packet
use cpp_tcp.Net.Packet.{Packet}
use cpp_tcp.Net.Transport
use cpp_tcp.Net.Transport.{Transport}
use cpp_tcp.Node.Socket.{TcpSocket, OutstandingSeg, fresh, double_rto, multiplicative_decrease_cwnd}
use cpp_tcp.Node.Manager.{
  TcpManager, ConnKey, Effect, sent, timer, retransmission, socket_at, hand_over, packet_for,
  send_data,
}
use cpp_tcp.Node.Manager.Timer.{
  resend_all, is_due, back_off, tick_socket, tick_all, schedule_tick, retransmission_tick,
}
use cpp_tcp.Node.Manager.Resending.Segments.{
  packet_of, Extends, Extends-refl, Extends-trans, Adds, Adds-Extends, Extends-Adds,
  resend_all-Sends, resend_all-sent,
}

-- The socket has backed off, so that its deadline lies ahead.
back_off_later :
    {D : Type 0} (now : ℤ) (s : TcpSocket D)
    → pos 1000 ≤ℤ s.rto_ms
    → is_due now (back_off now s) ≡ false
unfolding back_off double_rto multiplicative_decrease_cwnd ◌+ℤ◌ ◌*ℤ◌
back_off_later now s h = ground arith

module _ {D : Type 0} (double : DoubleOps D) (now : ℤ) where
  tick_socket_keeps :
      (j : ℕ) (m : TcpManager D)
      → ((tick_socket double now j m).addr ≡ m.addr)
        × (length (tick_socket double now j m).all_sockets ≡ length m.all_sockets)
        × Extends m.effects (tick_socket double now j m).effects
        × ((i : ℕ) → j ≢ i → socket_at double (tick_socket double now j m) i ≡ socket_at double m i)
  unfolding tick_socket
  tick_socket_keeps j m =
      let s = socket_at double m j in
      let r = resend_all-Sends s s.outstanding m in
      elim (Bool-cases (is_due now s)) [
        | inl e ↦ rw e (
          r.addr,
          length-set (resend_all s s.outstanding m).all_sockets j (back_off now s)
              ∙ ap length r.sockets,
          r.keeps,
          λ i other.
              get_or-set_other (resend_all s s.outstanding m).all_sockets j i (back_off now s)
                (fresh double) other
              ∙ ap (λ xs. get_or xs i (fresh double)) r.sockets,
        )
        | inr e ↦ rw e (refl, refl, Extends-refl m.effects, λ i other. refl)
      ]

-- A socket that is due, an outstanding segment of it, and the packet of that, which the runtime manager
-- accepts.
module _ {D : Type 0} (double : DoubleOps D) (now addr : ℤ) (base : List Effect) (i : ℕ)
    (s : TcpSocket D) (seg : OutstandingSeg) (p : Packet) (slow : pos 1000 ≤ℤ s.rto_ms)
    (due : is_due now s ≡ true) (mine : Memᴰ seg s.outstanding)
    (made : packet_of addr s seg ≡ some p)
    (ok : accepts addr s.remote_addr (Packet.pack p) ≡ true) where
  -- The tick has not come to the socket yet.
  record Before (m : TcpManager D) : Type 0 where
    pub own : m.addr ≡ addr
    pub there : i < length m.all_sockets
    pub at : socket_at double m i ≡ s
    pub grown : Extends base m.effects

  -- The tick has come to the socket.
  record After (m : TcpManager D) : Type 0 where
    pub own : m.addr ≡ addr
    pub there : i < length m.all_sockets
    pub at : socket_at double m i ≡ back_off now s
    pub again : Adds base (sent addr s.remote_addr (Packet.pack p)) m.effects

  tick_socket_self : (m : TcpManager D) → Before m → After (tick_socket double now i m)
  unfolding tick_socket
  tick_socket_self m b =
      let now_due : is_due now (socket_at double m i) ≡ true = rw b.at due in
      let r = resend_all-Sends s s.outstanding m in
      let longer : i < length (resend_all s s.outstanding m).all_sockets =
        subst (λ xs. i < length xs) (sym r.sockets) b.there in
      rw (now_due, b.at)
        (record {
          own = r.addr ∙ b.own;
          there = omega (
            arith,
            longer,
            length-set (resend_all s s.outstanding m).all_sockets i (back_off now s),
          );
          at =
              get_or-set_self (resend_all s s.outstanding m).all_sockets i (back_off now s)
                (fresh double) longer;
          again =
              Extends-Adds _ _ _ _ b.grown
                (resend_all-sent s s.outstanding m addr seg p b.own mine made ok);
        })

  tick_socket-Before :
      (j : ℕ) (m : TcpManager D) → j ≢ i → Before m → Before (tick_socket double now j m)
  tick_socket-Before j m other b =
      let (own, len, keeps, rest) = tick_socket_keeps double now j m in
      record {
        own = own ∙ b.own;
        there = omega (arith, len, b.there);
        at = rest i other ∙ b.at;
        grown = Extends-trans _ _ _ b.grown keeps;
      }

  -- A socket that has backed off is not due.
  tick_socket_idle : (m : TcpManager D) → After m → tick_socket double now i m ≡ m
  unfolding tick_socket
  tick_socket_idle m a =
      let idle : is_due now (socket_at double m i) ≡ false = rw a.at (back_off_later now s slow) in
      rw idle refl

  tick_socket-After : (j : ℕ) (m : TcpManager D) → After m → After (tick_socket double now j m)
  tick_socket-After j m a = elim (Bool-cases (j == i)) [
    | inl e ↦
        subst (λ j. After (tick_socket double now j m)) (sym ((==_iff j i).0 e))
          (subst After (sym (tick_socket_idle m a)) a)
    | inr e ↦
        let other : j ≢ i = ground arith in
        let (own, len, keeps, rest) = tick_socket_keeps double now j m in
        record {
          own = own ∙ a.own;
          there = omega (arith, len, a.there);
          at = rest i other ∙ a.at;
          again = Adds-Extends _ _ _ _ a.again keeps;
        }
  ]

  tick_all-After :
      (entries : List (ConnKey × ℕ)) (m : TcpManager D)
      → After m
      → After (tick_all double now entries m)
  unfolding tick_all
  tick_all-After [] m a = a
  tick_all-After ((k, j) ∷ entries) m a = tick_all-After entries _ (tick_socket-After j m a)

  tick_all-Before :
      (entries : List (ConnKey × ℕ)) (k : ConnKey) (m : TcpManager D)
      → Memᴰ (k, i) entries
      → Before m
      → After (tick_all double now entries m)
  unfolding tick_all
  tick_all-Before [] k m h b = elim h [ ]
  tick_all-Before ((k', j) ∷ entries) k m (Memᴰ.head h) b =
      let same : i ≡ j = ap (λ (e : ConnKey × ℕ). e.1) h in
      tick_all-After entries _
        (subst (λ j. After (tick_socket double now j m)) same (tick_socket_self m b))
  tick_all-Before ((k', j) ∷ entries) k m (Memᴰ.tail h) b = elim (Bool-cases (j == i)) [
    | inl e ↦ tick_all-After entries _ (
        subst (λ j. After (tick_socket double now j m)) (sym ((==_iff j i).0 e))
          (tick_socket_self m b))
    | inr e ↦
        let other : j ≢ i = ground arith in
        tick_all-Before entries k _ h (tick_socket-Before j m other b)
  ]

-- The retransmission tick, with an established socket whose deadline has passed: every outstanding
-- segment of it that the runtime manager accepts is handed over again by this tick, with its number and its bytes,
-- and the socket backs off once, also where it stands in the table twice. The last call is the timer
-- of the next tick. The timeout of the socket is one second at least, as `Sound` has it.
pub retransmission_tick-resends :
    {D : Type 0} (double : DoubleOps D) (now : ℤ) (m : TcpManager D) (k : ConnKey) (i : ℕ)
    (seg : OutstandingSeg) (p : Packet)
    → Memᴰ (k, i) m.established_by_key
    → i < length m.all_sockets
    → pos 1000 ≤ℤ (socket_at double m i).rto_ms
    → is_due now (socket_at double m i) ≡ true
    → Memᴰ seg (socket_at double m i).outstanding
    → packet_of m.addr (socket_at double m i) seg ≡ some p
    → accepts m.addr (socket_at double m i).remote_addr (Packet.pack p) ≡ true
    → let m' = retransmission_tick double now m in
      (es : List Effect) × (m'.effects
        ≡ m.effects ++ (es ++ (timer m.addr (pos 10) retransmission ∷ [])))
      × Memᴰ (sent m.addr (socket_at double m i).remote_addr (Packet.pack p)) es
      × (socket_at double m' i ≡ back_off now (socket_at double m i))
unfolding retransmission_tick schedule_tick
retransmission_tick-resends double now m k i seg p h there slow due mine made ok =
    let s = socket_at double m i in
    let a =
      tick_all-Before double now m.addr m.effects i s seg p slow due mine made ok
        m.established_by_key k m h
        (record { own = refl; there = there; at = refl; grown = Extends-refl m.effects }) in
    let ticked = tick_all double now m.established_by_key m in
    let (es, more, again) = a.again in
    let last = timer m.addr (pos 10) retransmission ∷ [] in
    (
      es,
      ap (λ x. ticked.effects ++ (timer x (pos 10) retransmission ∷ [])) a.own
          ∙ ap (λ xs. xs ++ last) more
          ∙ append_assoc m.effects es last,
      again,
      a.at,
    )
