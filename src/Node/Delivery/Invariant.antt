-- ===== src/Node/Delivery/Invariant.antt =====
-- What holds of every link that is reached from an established connection.
use mathlib.Core.List.{Memᴰ, append_assoc, append-nil}
use cpp_tcp.Base.{
  ℕ, suc, ◌≤◌, ◌≡◌, refl, sym, ap, subst, ◌∙◌, none, some, List, [], ◌∷◌, ◌++◌, length,
  length-append, length-drop, take-append-drop, take, arith, inl, inr,
}
use cpp_tcp.Base.Int.{ℤ, pos, pos_part, ◌+ℤ◌, ◌≤ℤ◌, +ℤ_parts, pos_add, pos_suc_add}
use cpp_tcp.Base.Double.{DoubleOps}
use cpp_tcp.Net.Transport.{Transport}
use cpp_tcp.Net.Transport.RoundTrip.{make-fields}
use cpp_tcp.Node.Socket.{TcpSocket, OutstandingSeg, read, multiplicative_decrease_cwnd, double_rto}
use cpp_tcp.Node.Manager.Connection.{push_sent}
use cpp_tcp.Node.Manager.Receive.{acknowledge, take_data}
use cpp_tcp.Node.Manager.Timer.{back_off}
use cpp_tcp.Node.Delivery.{
  Link, Step, IsData, writes, resends, times_out, starts, receives, acknowledges, reads,
}
use cpp_tcp.Node.Delivery.Slices.{
  Slice, Slice-append, append-cancel, Chain, Chain-append, Chain-snoc, Chain-retransmitted,
  Chain-pop_acked,
}
use cpp_tcp.Node.Delivery.Sockets.{acknowledge_lem, TakesOff, take_data_lem, read_lem}

-- What the receiver has is a beginning of the stream: `got` has been taken in order, up to `next`.
abbrev pub Received : List ℕ → List ℕ → ℤ → Type 0
Received stream got next =
    (rest : List ℕ) × (stream ≡ got ++ rest) × (next ≡ pos (suc (length got)))

-- The bytes that the receiving side has accepted, in order.
abbrev pub accepted : {D : Type 0} → Link D → List ℕ
accepted l = l.taken ++ l.receiver.recv_buf

pub record Inv {D : Type 0} (l : Link D) : Type 0 where
  -- Every segment on its way is a piece of what was written.
  pub honest : (t : Transport) → Memᴰ t l.data_sent → Slice l.written t.seq_num t.payload
  -- The receiver has taken a beginning of what was written, and counts it right.
  pub received : Received l.written (accepted l) l.receiver.rcv_nxt
  pub counted : l.receiver.recv_buf_used ≡ pos (length l.receiver.recv_buf)
  pub room : length l.receiver.recv_buf ≤ 32768
  -- No acknowledgement on its way is ahead of the receiver.
  pub acked : (a : Transport) → Memᴰ a l.acks_sent → a.seq_num ≤ℤ l.receiver.rcv_nxt
  pub una : l.sender.snd_una ≤ℤ l.receiver.rcv_nxt
  pub nxt : l.sender.snd_nxt ≡ pos (suc (length l.written))
  -- What is not acknowledged is outstanding.
  pub chain :
      (a : ℤ) × (a ≤ℤ l.sender.snd_una) × Chain l.written a l.sender.outstanding l.sender.snd_nxt

-- One more element in the network.
for_cons :
    {A : Type 0} (P : A → Type 0) (a : A) (xs : List A)
    → P a
    → ((x : A) → Memᴰ x xs → P x)
    → (x : A) → Memᴰ x (a ∷ xs)
    → P x
for_cons P a xs h k x (Memᴰ.head e) = subst P (sym e) h
for_cons P a xs h k x (Memᴰ.tail m) = k x m

-- What stands on the wire is the piece that was handed to `sendData`.
IsData-Slice :
    {D : Type 0} (s : TcpSocket D) (stream : List ℕ) (q : ℤ) (payload : List ℕ) (t : Transport)
    → IsData s q payload t
    → Slice stream q payload
    → Slice stream t.seq_num t.payload
IsData-Slice s stream q payload t made h = rw (make-fields _ _ _ _ _ _ t made) h

Chain-Slice :
    (stream : List ℕ) (a b : ℤ) (segs : List OutstandingSeg) (seg : OutstandingSeg)
    → Chain stream a segs b
    → Memᴰ seg segs
    → Slice stream seg.seq_start seg.bytes
Chain-Slice stream a b [] seg c m = elim m [ ]
Chain-Slice stream a b (x ∷ segs) seg c (Memᴰ.head e) = rw e c.3
Chain-Slice stream a b (x ∷ segs) seg c (Memᴰ.tail m) =
    Chain-Slice stream (a +ℤ x.len) b segs seg c.4 m

-- The next segment of the stream extends what has been received.
Received-Slice :
    (stream got payload : List ℕ) (q : ℤ)
    → Received stream got q
    → Slice stream q payload
    → Received stream (got ++ payload) (q +ℤ pos (length payload))
Received-Slice stream got payload q (rest, e, n) s =
    let same : length got ≡ length s.before = ground (arith, n, s.place) in
    let (b, r) = append-cancel got s.before rest (payload ++ s.after) (sym e ∙ s.splits) same in
    (
      s.after,
      rw (e, r) (sym (append_assoc got payload s.after)),
      rw (n, length-append got payload) (pos_suc_add (length got) (length payload)),
    )

module _ {D : Type 0} (l : Link D) (v : Inv l) where
  writes-Inv :
      (now : ℤ) (x : ℕ) (payload : List ℕ) (t : Transport)
      → IsData l.sender l.sender.snd_nxt (x ∷ payload) t
      → Inv (record l {
        sender = push_sent now (pos (length (x ∷ payload))) (x ∷ payload) l.sender;
        data_sent = t ∷ l.data_sent;
        written = l.written ++ (x ∷ payload);
      })
  writes-Inv now x payload t made = record {
    honest =
        for_cons (λ u. Slice (l.written ++ (x ∷ payload)) u.seq_num u.payload) t l.data_sent
          (IsData-Slice l.sender (l.written ++ (x ∷ payload)) l.sender.snd_nxt (x ∷ payload) t made
            piece)
          (λ u m. Slice-append (x ∷ payload) (v.honest u m));
    received = (
      v.received.0 ++ (x ∷ payload),
      rw v.received.1 (append_assoc (accepted l) v.received.0 (x ∷ payload)),
      v.received.2,
    );
    counted = v.counted;
    room = v.room;
    acked = v.acked;
    una = v.una;
    nxt =
        rw (v.nxt, length-append l.written (x ∷ payload))
          (pos_suc_add (length l.written) (length (x ∷ payload)));
    chain = (
      v.chain.0,
      v.chain.1,
      Chain-snoc (l.written ++ x ∷ payload) v.chain.0 l.sender.snd_nxt l.sender.outstanding _
          (Chain-append l.written (x ∷ payload) v.chain.0 l.sender.snd_nxt l.sender.outstanding
            v.chain.2)
          refl refl (omega arith) piece,
    );
  }
    where
      piece : Slice (l.written ++ (x ∷ payload)) l.sender.snd_nxt (x ∷ payload)
      piece = record { before = l.written; after = []; splits = rw append-nil refl; place = v.nxt }

  resends-Inv :
      (seg : OutstandingSeg) (t : Transport)
      → Memᴰ seg l.sender.outstanding
      → IsData l.sender seg.seq_start seg.bytes t
      → Inv (record l { data_sent = t ∷ l.data_sent })
  resends-Inv seg t m made = record {
    honest =
        for_cons (λ u. Slice l.written u.seq_num u.payload) t l.data_sent
          (IsData-Slice l.sender l.written seg.seq_start seg.bytes t made
            (Chain-Slice l.written v.chain.0 l.sender.snd_nxt l.sender.outstanding seg v.chain.2 m))
          v.honest;
    received = v.received;
    counted = v.counted;
    room = v.room;
    acked = v.acked;
    una = v.una;
    nxt = v.nxt;
    chain = v.chain;
  }

  times_out-Inv : (now : ℤ) → Inv (record l { sender = back_off now l.sender })
  unfolding back_off multiplicative_decrease_cwnd double_rto
  times_out-Inv now = record {
    honest = v.honest;
    received = v.received;
    counted = v.counted;
    room = v.room;
    acked = v.acked;
    una = v.una;
    nxt = v.nxt;
    chain = (
      v.chain.0,
      v.chain.1,
      Chain-retransmitted l.written v.chain.0 l.sender.snd_nxt l.sender.outstanding v.chain.2,
    );
  }

  -- A receiver that has moved on, with an acknowledgement of its new position.
  receiver_moves :
      (r : TcpSocket D) (a : Transport)
      → a.seq_num ≡ r.rcv_nxt
      → Received l.written (l.taken ++ r.recv_buf) r.rcv_nxt
      → r.recv_buf_used ≡ pos (length r.recv_buf)
      → length r.recv_buf ≤ 32768
      → l.receiver.rcv_nxt ≤ℤ r.rcv_nxt
      → Inv (record l { receiver = r; acks_sent = a ∷ l.acks_sent })
  receiver_moves r a e got counted room up = record {
    honest = v.honest;
    received = got;
    counted = counted;
    room = room;
    acked =
        for_cons (λ u. u.seq_num ≤ℤ r.rcv_nxt) a l.acks_sent (rw e (omega arith))
          (λ u m. omega (arith, v.acked u m, up));
    una = omega (arith, v.una, up);
    nxt = v.nxt;
    chain = v.chain;
  }

  receives-Inv :
      (t a : Transport)
      → Memᴰ t l.data_sent
      → a.seq_num ≡ (take_data t l.receiver).rcv_nxt
      → Inv (record l { receiver = take_data t l.receiver; acks_sent = a ∷ l.acks_sent })
  receives-Inv t a m e = elim (take_data_lem l.receiver v.counted t v.room) [
    | inl same ↦
        receiver_moves (take_data t l.receiver) a e (rw same v.received) (rw same v.counted)
          (rw same v.room) (rw same (omega arith))
    | inr (q, buf, used, nxt, room) ↦
        receiver_moves (take_data t l.receiver) a e
          (rw (buf, nxt, ← append_assoc l.taken l.receiver.recv_buf t.payload)
            (Received-Slice l.written (accepted l) t.payload l.receiver.rcv_nxt v.received
              (rw (← q) (v.honest t m))))
          (rw (buf, used, v.counted, length-append l.receiver.recv_buf t.payload)
            (pos_add (length l.receiver.recv_buf) (length t.payload)))
          (rw (buf, length-append l.receiver.recv_buf t.payload) room)
          (rw nxt (omega (arith, +ℤ_parts l.receiver.rcv_nxt (pos (length t.payload)))))
  ]

  reads-Inv :
      (buf : List ℕ) (at len : ℤ)
      → Inv (record l {
        receiver = (read (some buf) at len l.receiver).0;
        taken =
            l.taken ++ take (pos_part (read (some buf) at len l.receiver).2) l.receiver.recv_buf;
      })
  reads-Inv buf at len = record {
    honest = v.honest;
    received = (
      v.received.0,
      v.received.1 ∙ ap (λ w. w ++ v.received.0) (sym same),
      rw (t.next, same) v.received.2,
    );
    counted = t.counts;
    room = rw (t.left, length-drop n l.receiver.recv_buf) (omega (arith, v.room));
    acked = rw t.next v.acked;
    una = rw t.next v.una;
    nxt = v.nxt;
    chain = v.chain;
  }
    where
      n : ℕ
      n = pos_part (read (some buf) at len l.receiver).2

      t :
          TakesOff l.receiver
            (read (some buf) at len l.receiver).0
            (read (some buf) at len l.receiver).2
      t = read_lem l.receiver v.counted buf at len

      same :
          (l.taken ++ take (pos_part (read (some buf) at len l.receiver).2) l.receiver.recv_buf)
            ++ (read (some buf) at len l.receiver).0.recv_buf
          ≡ l.taken ++ l.receiver.recv_buf
      same = rw (t.left, append_assoc, take-append-drop)

-- A sender whose acknowledged number has moved on, with what is left of its segments.
sender_moves :
    {D : Type 0} (l : Link D) (v : Inv l) (s : TcpSocket D) (a : ℤ)
    → s.snd_nxt ≡ l.sender.snd_nxt
    → s.snd_una ≤ℤ l.receiver.rcv_nxt
    → a ≤ℤ s.snd_una
    → Chain l.written a s.outstanding s.snd_nxt
    → Inv (record l { sender = s })
sender_moves l v s a nxt una lo c = record {
  honest = v.honest;
  received = v.received;
  counted = v.counted;
  room = v.room;
  acked = v.acked;
  una = una;
  nxt = nxt ∙ v.nxt;
  chain = (a, lo, c);
}

module _ {D : Type 0} (double : DoubleOps D) where
  acknowledges-Inv :
      (l : Link D)
      → Inv l
      → (now : ℤ) (a : Transport) → Memᴰ a l.acks_sent
      → Inv (record l { sender = acknowledge double now a l.sender })
  acknowledges-Inv l v now a m =
      let (nxt, moved) = acknowledge_lem double now a l.sender in
      elim moved [
        | inl (una, out) ↦
            sender_moves l v (acknowledge double now a l.sender) v.chain.0 nxt (rw una v.una)
              (rw una v.chain.1) (rw (out, nxt) v.chain.2)
        | inr (una, out, up) ↦
            let (b, lo, c) =
              Chain-pop_acked l.written a.seq_num v.chain.0 l.sender.snd_nxt none
                l.sender.outstanding v.chain.2 (omega (arith, v.chain.1, up)) in
            sender_moves l v (acknowledge double now a l.sender) b nxt (rw una (v.acked a m))
              (rw una lo) (rw (out, nxt) c)
      ]

  -- Every step keeps the invariant.
  pub Step-Inv : {l l' : Link D} → Step double l l' → Inv l → Inv l'
  Step-Inv {l} (writes now x payload t made) v = writes-Inv l v now x payload t made
  Step-Inv {l} (resends seg t m made) v = resends-Inv l v seg t m made
  Step-Inv {l} (times_out now) v = times_out-Inv l v now
  Step-Inv {l} (starts t) v = record {
    honest = v.honest;
    received = v.received;
    counted = v.counted;
    room = v.room;
    acked = v.acked;
    una = v.una;
    nxt = v.nxt;
    chain = v.chain;
  }
  Step-Inv {l} (receives t a m e) v = receives-Inv l v t a m e
  Step-Inv {l} (acknowledges now a m) v = acknowledges-Inv l v now a m
  Step-Inv {l} (reads buf at len) v = reads-Inv l v buf at len
