-- ===== src/Node/Manager/Writing.antt =====
-- The loop of `write` and its fuel.
use cpp_tcp.Base.{
  ℕ, zero, suc, ◌<◌, ◌≡◌, ◌≢◌, Bool, false, not, ◌||◌, Option, none, some, List, take, drop, arith,
  Bool-cases, inl, inr,
}
use cpp_tcp.Base.Int.{ℤ, pos, pos_part, ◌+ℤ◌, ◌-ℤ◌, ◌≤ℤ◌, ltb_ℤ, leb_ℤ, ◌==ℤ◌}
use cpp_tcp.Base.Double.{DoubleOps}
use cpp_tcp.Node.Socket.{TcpSocket, is_connected, effective_window}
use cpp_tcp.Node.Manager.{TcpManager, socket_at}
use cpp_tcp.Node.Manager.Connection.{
  Written, wrote, failed, stuck, chunk_size, write_segment, write_loop, start_deadline, write_buf,
  write,
}

-- A round takes at least one byte, and not more than are left, unless the loop ends.
pub chunk_bounds :
    {D : Type 0} (len : ℤ) (s : TcpSocket D)
    → (chunk_size len s ≤ℤ len)
      × (chunk_size len s ≤ℤ effective_window s -ℤ (s.snd_nxt -ℤ s.snd_una))
      × (chunk_size len s ≤ℤ pos 107)
chunk_bounds len s = ground arith

fewer_left :
    (len chunk : ℤ) (fuel : ℕ)
    → pos_part len < suc fuel
    → chunk ≤ℤ len
    → leb_ℤ chunk (pos 0) ≡ false
    → leb_ℤ len (pos 0) ≡ false
    → pos_part (len -ℤ chunk) < fuel
unfolding ◌-ℤ◌
fewer_left len chunk fuel h k p q = ground arith

module _ {D : Type 0} (double : DoubleOps D) where
  write_loop-ne-stuck :
      (fuel i : ℕ) (now : ℤ) (buf : List ℕ) (len total : ℤ) (m : TcpManager D)
      → pos_part len < fuel
      → (write_loop double fuel i now buf len total m).1 ≢ stuck
  unfolding write_loop
  write_loop-ne-stuck zero i now buf len total m h = absurd (omega arith)
  write_loop-ne-stuck (suc fuel) i now buf len total m h =
      let s = socket_at double m i in
      let chunk : ℤ = chunk_size len s in
      let segment = write_segment double i now chunk (take (pos_part chunk) buf) m in
      elim (Bool-cases (
        leb_ℤ len (pos 0)
        || leb_ℤ (effective_window s) (s.snd_nxt -ℤ s.snd_una)
        || leb_ℤ chunk (pos 0))) [
          | inl e ↦ rw e (λ p. cc)
          | inr e ↦ rw e (elim (Bool-cases segment.1) [
            | inl d ↦ rw d (
                write_loop-ne-stuck fuel i now (drop (pos_part chunk) buf) (len -ℤ chunk)
                  (total +ℤ chunk) segment.0
                  (fewer_left len chunk fuel h (chunk_bounds len s).0 (ground arith)
                    (ground arith)))
            | inr d ↦ rw d (λ p. cc)
          ])
        ]

  start_deadline-ne-stuck :
      (i : ℕ) (now : ℤ) (idle : Bool) (m : TcpManager D) (r : Written)
      → r ≢ stuck
      → (start_deadline double i now idle (m, r)).1 ≢ stuck
  unfolding start_deadline
  start_deadline-ne-stuck i now idle m (wrote n) h = ground arith
  start_deadline-ne-stuck i now idle m failed h = h
  start_deadline-ne-stuck i now idle m stuck h = h

  -- `write` ends on every input: the rounds that its loop is given are enough, and it returns a
  -- count or -1.
  pub write-ne-stuck :
      (i : ℕ) (now : ℤ) (buf : Option (List ℕ)) (at len : ℤ) (m : TcpManager D)
      → (write double i now buf at len m).1 ≢ stuck
  unfolding write write_buf
  write-ne-stuck i now none at len m = λ p. cc
  write-ne-stuck i now (some buf) at len m =
      elim (Bool-cases (
        not (is_connected (socket_at double m i).state) || ltb_ℤ at (pos 0) || ltb_ℤ len (pos 0))) [
          | inl e ↦ rw e (λ p. cc)
          | inr e ↦ rw e (elim (Bool-cases (len ==ℤ pos 0)) [
            | inl z ↦ rw z (λ p. cc)
            | inr z ↦ rw z (
                start_deadline-ne-stuck i now _ _ _ (
                  write_loop-ne-stuck (suc (pos_part len)) i now (drop (pos_part at) buf) len
                    (pos 0) m (omega arith)))
          ])
        ]
