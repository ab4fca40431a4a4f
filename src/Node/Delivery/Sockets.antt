-- ===== src/Node/Delivery/Sockets.antt =====
-- What the steps do to the fields of a socket that carry the stream.
use cpp_tcp.Base.{
  ℕ, ◌+◌, ◌≤◌, ◌≡◌, refl, ◌&&◌, false, not, ◌||◌, none, some, List, [], ◌∷◌, ◌++◌, length,
  length-drop, take-length, drop, arith, Bool-cases, ◌⊎◌, inl, inr,
}
use cpp_tcp.Base.Int.{
  ℤ, pos, negsuc, minus_one, pos_part, ◌-ℤ◌, min_ℤ, ltb_ℤ, ◌==ℤ◌, ==ℤ→eq, ◌+ℤ◌, ◌≤ℤ◌,
}
use cpp_tcp.Base.Double.{DoubleOps}
use cpp_tcp.Net.Transport.{Transport}
use cpp_tcp.Node.Socket.{
  TcpSocket, is_connected, is_closure_pending, close_if_drained, recv_buf_cap,
  get_recv_buf_available, pop_acked, pop_acked_through, read, append_to_recv_buf, on_sample_rtt,
  additive_increase_cwnd,
}
use cpp_tcp.Node.Manager.Receive.{acknowledge, advance, sample, take_data}

module _ {D : Type 0} (double : DoubleOps D) where
  -- Fields of the sender that an acknowledgement leaves alone, and what it does to the others.
  pub acknowledge_lem :
      (now : ℤ) (t : Transport) (s : TcpSocket D)
      → ((acknowledge double now t s).snd_nxt ≡ s.snd_nxt)
        × ((((acknowledge double now t s).snd_una ≡ s.snd_una)
              × ((acknowledge double now t s).outstanding ≡ s.outstanding))
            ⊎ (((acknowledge double now t s).snd_una ≡ t.seq_num)
                × ((acknowledge double now t s).outstanding
                    ≡ (pop_acked t.seq_num none s.outstanding).0)
                × (s.snd_una ≤ℤ t.seq_num)))
  unfolding acknowledge advance sample on_sample_rtt additive_increase_cwnd pop_acked_through
  acknowledge_lem now t s = ground arith

room_for : (used n : ℕ) → used + n ≤ 32768 → min_ℤ (pos n) (recv_buf_cap -ℤ pos used) ≡ pos n
unfolding ◌-ℤ◌
room_for used n h = ground arith

has_room :
    (used n : ℕ)
    → ltb_ℤ (recv_buf_cap -ℤ pos used) (pos n) ≡ false
    → used ≤ 32768
    → used + n ≤ 32768
unfolding ◌-ℤ◌
has_room used n h k = ground arith

-- The segment is refused, or taken as a whole because it is the next one and fits.
abbrev pub Taken : {D : Type 0} → Transport → TcpSocket D → Type 0
Taken t s =
    (take_data t s ≡ s)
    ⊎ ((t.seq_num ≡ s.rcv_nxt)
        × ((take_data t s).recv_buf ≡ s.recv_buf ++ t.payload)
        × ((take_data t s).recv_buf_used ≡ s.recv_buf_used +ℤ pos (length t.payload))
        × ((take_data t s).rcv_nxt ≡ s.rcv_nxt +ℤ pos (length t.payload))
        × (length s.recv_buf + length t.payload ≤ 32768))

module _ {D : Type 0} (s : TcpSocket D) (counted : s.recv_buf_used ≡ pos (length s.recv_buf)) where
  -- Bytes that fit are taken as a whole.
  append_to_recv_buf_fits :
      (x : ℕ) (xs : List ℕ)
      → length s.recv_buf + length (x ∷ xs) ≤ 32768
      → append_to_recv_buf (some (x ∷ xs)) 0 (pos (length (x ∷ xs))) s ≡ (
        record s {
          recv_buf = s.recv_buf ++ x ∷ xs;
          recv_buf_used = s.recv_buf_used +ℤ pos (length (x ∷ xs));
        },
        pos (length (x ∷ xs)),
      )
  unfolding append_to_recv_buf
  append_to_recv_buf_fits x xs h =
      let e : min_ℤ (pos (length (x ∷ xs))) (recv_buf_cap -ℤ s.recv_buf_used)
          ≡ pos (length (x ∷ xs)) =
        rw counted (room_for (length s.recv_buf) (length (x ∷ xs)) h) in
      rw (e, take-length xs) (ground arith)

  take_data_cases :
      (t : Transport) (p : List ℕ) → length s.recv_buf ≤ 32768 → Taken (record t { payload = p }) s
  unfolding take_data
  take_data_cases t [] room = inl (ground arith)
  take_data_cases t (x ∷ xs) room =
      elim (Bool-cases (
        not (t.seq_num ==ℤ s.rcv_nxt)
        || ltb_ℤ (get_recv_buf_available s) (pos (length (x ∷ xs))))) [
          | inl refused ↦ inl (ground arith)
          | inr taken ↦
              let fits : length s.recv_buf + length (x ∷ xs) ≤ 32768 =
                has_room (length s.recv_buf) (length (x ∷ xs)) (rw (← counted) (ground arith))
                  room in
              let e = append_to_recv_buf_fits x xs fits in
              inr (
                ==ℤ→eq t.seq_num s.rcv_nxt (ground arith),
                ground (arith, e),
                ground (arith, e),
                ground (arith, e),
                fits,
              )
        ]

  -- What a data segment does to the receiver.
  pub take_data_lem : (t : Transport) → length s.recv_buf ≤ 32768 → Taken t s
  take_data_lem t room = take_data_cases t t.payload room

abbrev after_read : {D : Type 0} → ℤ → TcpSocket D → TcpSocket D
after_read n s = record s {
  recv_buf = drop (pos_part n) s.recv_buf;
  recv_buf_used = s.recv_buf_used -ℤ n;
}

-- `n` bytes have been taken off the front of the buffer, and the socket counts what is left.
pub record TakesOff {D : Type 0} (s s' : TcpSocket D) (n : ℤ) : Type 0 where
  pub left : s'.recv_buf ≡ drop (pos_part n) s.recv_buf
  pub counts : s'.recv_buf_used ≡ pos (length s'.recv_buf)
  pub next : s'.rcv_nxt ≡ s.rcv_nxt

module _ {D : Type 0} (s : TcpSocket D) (counted : s.recv_buf_used ≡ pos (length s.recv_buf)) where
  TakesOff-none : (n : ℤ) → pos_part n ≡ 0 → TakesOff s s n
  TakesOff-none n h = record { left = rw h; counts = counted; next = refl }

  TakesOff-close : (s' : TcpSocket D) (n : ℤ) → TakesOff s s' n → TakesOff s (close_if_drained s') n
  TakesOff-close s' n r = elim (Bool-cases (s'.peer_fin_received && s'.recv_buf_used ==ℤ pos 0)) [
    | inl e ↦ rw e (record { left = r.left; counts = r.counts; next = r.next })
    | inr e ↦ rw e r
  ]

  used_after :
      (n : ℤ)
      → pos 0 ≤ℤ n
      → n ≤ℤ s.recv_buf_used
      → s.recv_buf_used -ℤ n ≡ pos (length (drop (pos_part n) s.recv_buf))
  unfolding ◌-ℤ◌
  used_after (pos n) lo hi = rw (length-drop n s.recv_buf, counted) (ground arith)
  used_after (negsuc n) lo hi = absurd (omega arith)

  pub read_lem :
      (buf : List ℕ) (at len : ℤ)
      → TakesOff s (read (some buf) at len s).0 (read (some buf) at len s).2
  unfolding read
  read_lem buf at len =
      elim (Bool-cases (
        not (is_connected s.state) && not (is_closure_pending s.state)
        || ltb_ℤ at (pos 0)
        || ltb_ℤ len (pos 0))) [
          | inl e ↦ rw e (TakesOff-none minus_one refl)
          | inr e ↦ rw e (elim (Bool-cases (len ==ℤ pos 0 || s.recv_buf_used ==ℤ pos 0)) [
            | inl e' ↦ rw e' (TakesOff-close s (pos 0) (TakesOff-none (pos 0) refl))
            | inr e' ↦ rw e' (
                TakesOff-close (after_read (min_ℤ len s.recv_buf_used) s)
                  (min_ℤ len s.recv_buf_used)
                  (record {
                    left = refl;
                    counts =
                        used_after (min_ℤ len s.recv_buf_used) (ground (arith, counted))
                          (ground (arith, counted));
                    next = refl;
                  }))
          ])
        ]
