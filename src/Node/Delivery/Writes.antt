-- ===== src/Node/Delivery/Writes.antt =====
-- The rounds of `write`, as steps of a connection.
pub mod Whole
use cpp_tcp.Base.{
  ℕ, zero, suc, ◌+◌, ◌-◌, ◌≤◌, ◌<◌, ◌≡◌, ◌≢◌, refl, sym, ap, ◌∙◌, Bool, true, false, not, ◌&&◌,
  ◌||◌, Option, none, some, List, [], ◌∷◌, ◌++◌, length, length-take, length-drop, length-set,
  get_or-set_self, get_or, set, take, drop, arith, if◌then◌else◌, Bool-cases, Option-cases, inl,
  inr,
}
use mathlib.Core.List.{append_assoc, append-nil}
use cpp_tcp.Base.Int.{
  ℤ, pos, negsuc, pos_part, ◌+ℤ◌, ◌-ℤ◌, ◌≤ℤ◌, ltb_ℤ, leb_ℤ, ◌==ℤ◌, int_laws, pos_add,
}
use cpp_tcp.Base.Double.{DoubleOps}
use cpp_tcp.Core.Runtime.{accepts}
use cpp_tcp.Net.Packet
use cpp_tcp.Net.Packet.{Packet}
use cpp_tcp.Net.Transport
use cpp_tcp.Net.Transport.{Transport}
use cpp_tcp.Node.Socket.{TcpSocket, fresh, is_connected, is_empty, effective_window}
use cpp_tcp.Node.Manager.{TcpManager, socket_at, put, hand_over, packet_for, send_data}
use cpp_tcp.Node.Manager.Connection.{
  Written, wrote, failed, stuck, push_sent, chunk_size, write_segment, write_loop, start_deadline,
  write_buf, write,
}
use cpp_tcp.Node.Manager.Writing.{chunk_bounds}
use cpp_tcp.Node.Delivery.{Link, Step, Reach, IsData, here, next, writes, starts}

take_nil : {A : Type 0} (n : ℕ) → take {A = A} n [] ≡ []
take_nil zero = refl
take_nil (suc n) = refl

take_add : {A : Type 0} (m n : ℕ) (xs : List A) → take (m + n) xs ≡ take m xs ++ take n (drop m xs)
take_add zero n xs = let e : 0 + n ≡ n = omega arith in rw e refl
take_add (suc m) n [] = let e : suc m + n ≡ suc (m + n) = omega arith in rw e (sym (take_nil n))
take_add (suc m) n (x ∷ xs) =
    let e : suc m + n ≡ suc (m + n) = omega arith in rw e (ap (λ ys. x ∷ ys) (take_add m n xs))

pub add_round :
    (total chunk n : ℤ) (k : ℕ)
    → n ≡ total +ℤ chunk +ℤ pos k
    → chunk ≡ pos (pos_part chunk)
    → n ≡ total +ℤ pos (pos_part chunk + k)
add_round total (pos c) n k h e = h ∙ omega int_laws
add_round total (negsuc c) n k h e = absurd cc

-- What a round takes and leaves.
pub round_bounds :
    (chunk len : ℤ) (n : ℕ)
    → leb_ℤ chunk (pos 0) ≡ false
    → chunk ≤ℤ len
    → pos_part len ≤ n
    → (chunk ≡ pos (pos_part chunk))
      × (0 < pos_part chunk)
      × (pos_part chunk ≤ n)
      × (pos_part (len -ℤ chunk) ≤ n - pos_part chunk)
unfolding ◌-ℤ◌
round_bounds (pos c) len n h k e = (refl, ground arith, ground arith, ground arith)
round_bounds (negsuc c) len n h k e = absurd (ground arith)

module _ {D : Type 0} (double : DoubleOps D) where
  Reach-trans : {l l' l'' : Link D} → Reach double l l' → Reach double l' l'' → Reach double l l''
  Reach-trans r here = r
  Reach-trans r (next q s) = next (Reach-trans r q) s

  -- The link after one round.
  abbrev pub after_round : ℤ → List ℕ → Transport → Link D → Link D
  after_round now payload t l = record l {
    sender = push_sent now (pos (length payload)) payload l.sender;
    data_sent = t ∷ l.data_sent;
    written = l.written ++ payload;
  }

  round-Step :
      (now : ℤ) (payload : List ℕ) (t : Transport) (l : Link D)
      → 0 < length payload
      → IsData l.sender l.sender.snd_nxt payload t
      → Step double l (after_round now payload t l)
  round-Step now [] t l h made = absurd (omega arith)
  round-Step now (x ∷ payload) t l h made = writes now x payload t made

  sockets-hand_over :
      (to : ℤ) (p : Option Packet) (m : TcpManager D)
      → (hand_over to p m).0.all_sockets ≡ m.all_sockets
  unfolding hand_over
  sockets-hand_over to none m = refl
  sockets-hand_over to (some p) m = elim (Bool-cases (accepts m.addr to (Packet.pack p))) [
    | inl e ↦ rw e refl
    | inr e ↦ rw e refl
  ]

  sockets-send_data :
      (s : TcpSocket D) (a p q : ℤ) (payload : List ℕ) (m : TcpManager D)
      → (send_data s a p q payload m).0.all_sockets ≡ m.all_sockets
  unfolding send_data
  sockets-send_data s a p q payload m =
      sockets-hand_over a
        (packet_for m.addr a (Transport.make s.local_port p Transport.data_type (pos 0) q payload))
        m

  -- What is sent is a segment that the constructor accepts.
  send_data-made :
      (s : TcpSocket D) (a p q : ℤ) (payload : List ℕ) (m : TcpManager D)
      → (send_data s a p q payload m).1 ≡ true
      → (t : Transport) × (Transport.make s.local_port p Transport.data_type (pos 0) q payload
          ≡ some t)
  unfolding send_data packet_for hand_over
  send_data-made s a p q payload m d =
      elim (Option-cases (Transport.make s.local_port p Transport.data_type (pos 0) q payload)) [
        | inl e ↦ let d' : false ≡ true = rw (e, packet_for, hand_over) at d in absurd cc
        | inr r ↦ r
      ]

  -- What one round does when its segment has been sent.
  pub write_segment_lem :
      (i : ℕ) (now chunk : ℤ) (payload : List ℕ) (m : TcpManager D)
      → i < length m.all_sockets
      → (write_segment double i now chunk payload m).1 ≡ true
      → (socket_at double (write_segment double i now chunk payload m).0 i
          ≡ push_sent now chunk payload (socket_at double m i))
        × (i < length (write_segment double i now chunk payload m).0.all_sockets)
        × ((t : Transport) × IsData (socket_at double m i) (socket_at double m i).snd_nxt payload t)
  unfolding write_segment
  write_segment_lem i now chunk payload m h d =
      let s = socket_at double m i in
      let m' = (send_data s s.remote_addr s.remote_port s.snd_nxt payload m).0 in
      let kept : m'.all_sockets ≡ m.all_sockets =
        sockets-send_data s s.remote_addr s.remote_port s.snd_nxt payload m in
      let room : i < length m'.all_sockets = rw kept h in
      rw d (
        get_or-set_self m'.all_sockets i (push_sent now chunk payload s) (fresh double) room,
        rw (length-set m'.all_sockets i (push_sent now chunk payload s)) room,
        send_data-made s s.remote_addr s.remote_port s.snd_nxt payload m d,
      )

  -- The link and the socket agree before and after: `k` bytes have been accepted.
  pub record Accepts (i k : ℕ) (bytes : List ℕ) (l l' : Link D) (m' : TcpManager D) : Type 0 where
    pub reach : Reach double l l'
    pub same : l'.sender ≡ socket_at double m' i
    pub accepted : l'.written ≡ l.written ++ take k bytes
    pub there : i < length m'.all_sockets

  pub round-Accepts :
      (i k c : ℕ) (now : ℤ) (buf : List ℕ) (t : Transport) (l l' : Link D) (m' : TcpManager D)
      → 0 < c
      → c ≤ length buf
      → IsData l.sender l.sender.snd_nxt (take c buf) t
      → Accepts i k (drop c buf) (after_round now (take c buf) t l) l' m'
      → Accepts i (c + k) buf l l' m'
  round-Accepts i k c now buf t l l' m' h n made r = record {
    reach =
        Reach-trans
          (next here (round-Step now (take c buf) t l (rw (length-take c buf) (omega arith)) made))
          r.reach;
    same = r.same;
    accepted =
        r.accepted
        ∙ append_assoc l.written (take c buf) (take k (drop c buf))
        ∙ ap (◌++◌ l.written) (sym (take_add c k buf));
    there = r.there;
  }
