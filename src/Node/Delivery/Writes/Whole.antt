-- ===== src/Node/Delivery/Writes/Whole.antt =====
-- A whole call of `write`, as steps of a connection.
use cpp_tcp.Base.{
  ℕ, zero, suc, ◌+◌, ◌≤◌, ◌<◌, ◌≡◌, refl, sym, ap, ◌∙◌, Bool, not, ◌&&◌, ◌||◌, some, List, ◌++◌,
  length, length-take, length-drop, length-set, get_or-set_self, take, drop, arith, Bool-cases, inl,
  inr,
}
use mathlib.Core.List.{append-nil}
use cpp_tcp.Base.Int.{ℤ, pos, pos_part, ◌+ℤ◌, ◌-ℤ◌, ltb_ℤ, leb_ℤ, ◌==ℤ◌, int_laws, pos_add}
use cpp_tcp.Base.Double.{DoubleOps}
use cpp_tcp.Node.Socket.{fresh, is_connected, is_empty, effective_window}
use cpp_tcp.Node.Manager.{TcpManager, socket_at, put}
use cpp_tcp.Node.Manager.Connection.{
  Written, wrote, failed, stuck, chunk_size, write_segment, write_loop, start_deadline, write_buf,
  write,
}
use cpp_tcp.Node.Manager.Writing.{chunk_bounds}
use cpp_tcp.Node.Delivery.{Link, Reach, here, next, starts}
use cpp_tcp.Node.Delivery.Writes.{
  after_round, write_segment_lem, Accepts, round-Accepts, round_bounds, add_round,
}

module _ {D : Type 0} (double : DoubleOps D) where
  -- The loop of `write`, from a link that agrees with the socket.
  write_loop-Accepts :
      (fuel i : ℕ) (now : ℤ) (buf : List ℕ) (len total n : ℤ) (m m' : TcpManager D) (l : Link D)
      → i < length m.all_sockets
      → l.sender ≡ socket_at double m i
      → pos_part len ≤ length buf
      → write_loop double fuel i now buf len total m ≡ (m', wrote n)
      → (k : ℕ) × (l' : Link D) × (n ≡ total +ℤ pos k)
        × (k ≤ pos_part len)
        × Accepts double i k buf l l' m'
  unfolding write_loop
  write_loop-Accepts zero i now buf len total n m m' l h same enough e =
      let r : stuck ≡ wrote n = ap (λ x. x.1) e in absurd cc
  write_loop-Accepts (suc fuel) i now buf len total n m m' l h same enough e =
      let s = socket_at double m i in
      let chunk : ℤ = chunk_size len s in
      let c : ℕ = pos_part chunk in
      let payload : List ℕ = take c buf in
      let segment = write_segment double i now chunk payload m in
      elim (Bool-cases (
        leb_ℤ len (pos 0)
        || leb_ℤ (effective_window s) (s.snd_nxt -ℤ s.snd_una)
        || leb_ℤ chunk (pos 0))) [
          | inl stop ↦
              let r : (m, wrote total) ≡ (m', wrote n) = rw stop at e in
              let same_m : m ≡ m' = ap (λ x. x.0) r in
              let same_n : wrote total ≡ wrote n = ap (λ x. x.1) r in
              let total_n : total ≡ n = ground arith in
              (
                0,
                l,
                rw total_n (omega int_laws),
                omega arith,
                record {
                  reach = here;
                  same = rw (← same_m) same;
                  accepted = sym (append-nil l.written);
                  there = rw (← same_m) h;
                },
              )
          | inr go ↦ elim (Bool-cases segment.1) [
            | inl done ↦
                let r : write_loop double fuel i now (drop c buf) (len -ℤ chunk) (total +ℤ chunk)
                      segment.0
                    ≡ (m', wrote n) =
                  rw (go, done) at e in
                let (after, there, (t, made)) =
                  write_segment_lem double i now chunk payload m h done in
                let (chunk_c, c_pos, c_le, left) =
                  round_bounds chunk len (length buf) (ground arith) (chunk_bounds len s).0
                    enough in
                let size : pos (length payload) ≡ chunk =
                  rw (length-take c buf) (ap pos (omega (arith, c_le)) ∙ sym chunk_c) in
                let fits =
                  (round_bounds chunk len (pos_part len) (ground arith) (chunk_bounds len s).0
                    (omega arith)) in
                let (k, l', count, within, acc) =
                  write_loop-Accepts fuel i now (drop c buf) (len -ℤ chunk) (total +ℤ chunk) n
                    segment.0 m' (after_round double now payload t l) there
                    (rw (after, same, size) refl) (rw (length-drop c buf) left) r in
                (
                  c + k,
                  l',
                  add_round total chunk n k count chunk_c,
                  omega (arith, fits.2, fits.3, within),
                  round-Accepts double i k c now buf t l l' m' c_pos c_le (rw same made) acc,
                )
            | inr not_done ↦
                let r : (segment.0, failed) ≡ (m', wrote n) = rw (go, not_done) at e in
                let no : failed ≡ wrote n = ap (λ x. x.1) r in absurd cc
          ]
        ]

  deadline-Accepts :
      (i k : ℕ) (now : ℤ) (idle : Bool) (bytes : List ℕ) (r : Written) (n : ℤ) (m m' : TcpManager D)
      (l l₁ : Link D)
      → start_deadline double i now idle (m, r) ≡ (m', wrote n)
      → Accepts double i k bytes l l₁ m
      → (l' : Link D) × Accepts double i k bytes l l' m'
  unfolding start_deadline
  deadline-Accepts i k now idle bytes (wrote total) n m m' l l₁ e a =
      let s = socket_at double m i in
      let t : ℤ = now +ℤ s.rto_ms in
      elim (Bool-cases (idle && ltb_ℤ (pos 0) total)) [
        | inl first ↦
            let r : (put m i (record s { next_rto_deadline_ms = t }), wrote total) ≡ (m', wrote n) =
              rw first at e in
            let same_m : put m i (record s { next_rto_deadline_ms = t }) ≡ m' = ap (λ x. x.0) r in
            (
              record l₁ { sender = record l₁.sender { next_rto_deadline_ms = t } },
              record {
                reach = next a.reach (starts t);
                same =
                    rw (← same_m, a.same)
                      (sym (
                        get_or-set_self m.all_sockets i (record s { next_rto_deadline_ms = t })
                          (fresh double) a.there));
                accepted = a.accepted;
                there =
                    rw
                      (← same_m, length-set m.all_sockets i (record s { next_rto_deadline_ms = t }))
                      a.there;
              },
            )
        | inr later ↦
            let r : (m, wrote total) ≡ (m', wrote n) = rw later at e in
            let same_m : m ≡ m' = ap (λ x. x.0) r in (l₁, rw (← same_m) a)
      ]
  deadline-Accepts i k now idle bytes failed n m m' l l₁ e a =
      let r : failed ≡ wrote n = ap (λ x. x.1) e in absurd cc
  deadline-Accepts i k now idle bytes stuck n m m' l l₁ e a =
      let r : stuck ≡ wrote n = ap (λ x. x.1) e in absurd cc

  deadline-result :
      (i : ℕ) (now : ℤ) (idle : Bool) (r : Written) (n : ℤ) (m m' : TcpManager D)
      → start_deadline double i now idle (m, r) ≡ (m', wrote n)
      → r ≡ wrote n
  unfolding start_deadline
  deadline-result i now idle (wrote total) n m m' e =
      elim (Bool-cases (idle && ltb_ℤ (pos 0) total)) [
        | inl first ↦ ap (λ x. x.1) (rw first at e)
        | inr later ↦ ap (λ x. x.1) (rw later at e)
      ]
  deadline-result i now idle failed n m m' e = ap (λ x. x.1) e
  deadline-result i now idle stuck n m m' e = ap (λ x. x.1) e

  -- The link and the socket agree on a link `l`, and the buffer holds at least the `len` bytes from
  -- `at` on. If `write` returns a count, then the call is a series of steps from `l` to a link that
  -- agrees with the socket after the call, and the bytes accepted on it are the first `count` bytes
  -- from `at` on, at most `len`, and no socket goes.
  pub write-Reach :
      (i : ℕ) (now : ℤ) (buf : List ℕ) (at len count : ℤ) (m m' : TcpManager D) (l : Link D)
      → i < length m.all_sockets
      → l.sender ≡ socket_at double m i
      → pos_part at + pos_part len ≤ length buf
      → write double i now (some buf) at len m ≡ (m', wrote count)
      → (k : ℕ) × (l' : Link D) × (count ≡ pos k)
        × (k ≤ pos_part len)
        × Reach double l l'
        × (l'.sender ≡ socket_at double m' i)
        × (l'.written ≡ l.written ++ take k (drop (pos_part at) buf))
        × (i < length m'.all_sockets)
  unfolding write write_buf
  write-Reach i now buf at len count m m' l h same enough e =
      let s = socket_at double m i in
      let bytes = drop (pos_part at) buf in
      let loop = write_loop double (suc (pos_part len)) i now bytes len (pos 0) m in
      elim (Bool-cases (not (is_connected s.state) || ltb_ℤ at (pos 0) || ltb_ℤ len (pos 0))) [
        | inl bad ↦
            let r : (m, failed) ≡ (m', wrote count) = rw bad at e in
            let no : failed ≡ wrote count = ap (λ x. x.1) r in absurd cc
        | inr good ↦ elim (Bool-cases (len ==ℤ pos 0)) [
          | inl z ↦
              let r : (m, wrote (pos 0)) ≡ (m', wrote count) = rw (good, z) at e in
              let same_m : m ≡ m' = ap (λ x. x.0) r in
              let same_n : wrote (pos 0) ≡ wrote count = ap (λ x. x.1) r in
              let none_written : pos 0 ≡ count = ground arith in
              (
                0,
                l,
                sym none_written,
                omega arith,
                here,
                rw (← same_m) same,
                sym (append-nil l.written),
                rw (← same_m) h,
              )
          | inr some_left ↦
              let r : start_deadline double i now (is_empty s.outstanding) (loop.0, loop.1)
                  ≡ (m', wrote count) =
                rw (good, some_left) at e in
              let result =
                deadline-result i now (is_empty s.outstanding) loop.1 count loop.0 m' r in
              let room : pos_part len ≤ length bytes =
                rw (length-drop (pos_part at) buf) (omega (arith, enough)) in
              let (k, l₁, total, within, acc) =
                write_loop-Accepts (suc (pos_part len)) i now bytes len (pos 0) count m loop.0 l h
                  same room (ap (λ x. (loop.0, x)) result) in
              let (l', a) =
                deadline-Accepts i k now (is_empty s.outstanding) bytes loop.1 count loop.0 m' l l₁
                  r acc in
              (
                k,
                l',
                total ∙ pos_add 0 k ∙ ap pos (omega arith),
                within,
                a.reach,
                a.same,
                a.accepted,
                a.there,
              )
        ]
      ]
