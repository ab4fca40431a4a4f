-- ===== src/Node/Delivery/InOrder.antt =====
-- The two streams of bytes of a connection: what is written and what is read.
use mathlib.Core.List.{append_assoc, append-nil}
use cpp_tcp.Base.{
  ℕ, suc, ◌+◌, ◌≤◌, ◌≡◌, refl, sym, ap, ◌∙◌, List, [], ◌∷◌, ◌++◌, length, length-append, arith,
}
use cpp_tcp.Base.Int.{ℤ, pos, ◌≤ℤ◌}
use cpp_tcp.Base.Double.{DoubleOps}
use cpp_tcp.Node.Socket.{OutstandingSeg}
use cpp_tcp.Node.Delivery.{Link, Reach, here, next, IsOpened}
use cpp_tcp.Node.Delivery.Slices.{Chain}
use cpp_tcp.Node.Delivery.Invariant.{Inv, accepted, Step-Inv}

pub opened-Inv : {D : Type 0} (l : Link D) → IsOpened l → Inv l
opened-Inv l o = record {
  honest = rw o.data_sent (λ t m. elim m [ ]);
  received = ([], rw (o.written, o.taken, o.buffer) refl, rw (o.taken, o.buffer) o.next_byte);
  counted = rw o.buffer o.used;
  room = rw o.buffer (omega arith);
  acked = rw o.acks_sent (λ a m. elim m [ ]);
  una = rw (o.una, o.next_byte) (omega arith);
  nxt = rw o.written o.nxt;
  chain = (pos 1, rw o.una (omega arith), rw (o.outstanding, o.nxt) refl);
}

nil_of_length : (xs : List ℕ) → length xs ≤ 0 → xs ≡ []
nil_of_length [] h = refl
nil_of_length (x ∷ xs) h = absurd (omega arith)

drained :
    (stream : List ℕ) (a b : ℤ) (segs : List OutstandingSeg)
    → segs ≡ []
    → Chain stream a segs b
    → a ≡ b
drained stream a b [] e c = c
drained stream a b (x ∷ segs) e c = cc

module _ {D : Type 0} (l : Link D) (v : Inv l) where
  lengths : length l.written ≡ length (accepted l) + length v.received.0
  lengths = ap length v.received.1 ∙ length-append (accepted l) v.received.0

  order :
      (l.sender.snd_una ≤ℤ l.receiver.rcv_nxt)
      × (l.receiver.rcv_nxt ≤ℤ l.sender.snd_nxt)
      × (length l.receiver.recv_buf ≤ 32768)
  order = (v.una, rw (v.received.2, v.nxt) (omega (arith, lengths)), v.room)

  all_accepted : l.sender.outstanding ≡ [] → accepted l ≡ l.written
  all_accepted e =
      let c = drained l.written v.chain.0 l.sender.snd_nxt l.sender.outstanding e v.chain.2 in
      let up : l.sender.snd_nxt ≤ℤ l.receiver.rcv_nxt =
        rw (← c) (omega (arith, v.chain.1, v.una)) in
      let up' : pos (suc (length l.written)) ≤ℤ pos (suc (length (accepted l))) =
        rw (v.nxt, v.received.2) at up in
      let none_left = nil_of_length v.received.0 (omega (arith, lengths, up')) in
      sym (v.received.1 ∙ ap (◌++◌ (accepted l)) none_left ∙ append-nil (accepted l))

module _ {D : Type 0} (double : DoubleOps D) where
  pub Reach-Inv : {l l' : Link D} → Inv l → Reach double l l' → Inv l'
  Reach-Inv v here = v
  Reach-Inv v (next r st) = Step-Inv double st (Reach-Inv v r)

  -- From an opened link on, the bytes that the receiving application has read are the first bytes
  -- that the sending application has written, in their order, with none missing or repeated.
  pub reads-prefix :
      (l l' : Link D)
      → IsOpened l
      → Reach double l l'
      → (rest : List ℕ) × (l'.written ≡ l'.taken ++ rest)
  reads-prefix l l' o r =
      let v = Reach-Inv (opened-Inv l o) r in
      (
        l'.receiver.recv_buf ++ v.received.0,
        v.received.1 ∙ append_assoc l'.taken l'.receiver.recv_buf v.received.0,
      )

  -- From an opened link on, whenever nothing is outstanding, the receiver has taken every byte
  -- that was written: it has been read or stands in the receive buffer, in the order of the
  -- writes.
  pub drained-accepted :
      (l l' : Link D)
      → IsOpened l
      → Reach double l l'
      → l'.sender.outstanding ≡ []
      → l'.taken ++ l'.receiver.recv_buf ≡ l'.written
  drained-accepted l l' o r e = all_accepted l' (Reach-Inv (opened-Inv l o) r) e

  -- From an opened link on, the acknowledged number, the next number expected and the next number
  -- to send are always in this order, and the receive buffer never holds more than its capacity.
  pub sequence_order :
      (l l' : Link D)
      → IsOpened l
      → Reach double l l'
      → (l'.sender.snd_una ≤ℤ l'.receiver.rcv_nxt)
        × (l'.receiver.rcv_nxt ≤ℤ l'.sender.snd_nxt)
        × (length l'.receiver.recv_buf ≤ 32768)
  sequence_order l l' o r = order l' (Reach-Inv (opened-Inv l o) r)
