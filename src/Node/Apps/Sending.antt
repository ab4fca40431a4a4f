-- ===== src/Node/Apps/Sending.antt =====
-- A client at the sending end of a connection.
use cpp_tcp.Base.{
  ℕ, ◌+◌, ◌-◌, ◌%◌, ◌≤◌, ◌<◌, ◌≡◌, ◌⊎◌, inl, inr, refl, sym, ap, ◌∙◌, subst, some, List, ◌++◌,
  length, take, drop, Bool-cases, arith,
}
use cpp_tcp.Base.Int.{ℤ, pos, pos_part, ◌+ℤ◌, ◌-ℤ◌, ◌==ℤ◌, min_ℤ, rem_ℤ, pos_add}
use cpp_tcp.Base.Double.{DoubleOps}
use cpp_tcp.Node.Manager.{TcpManager, socket_at}
use cpp_tcp.Node.Manager.Connection.{Written, wrote, failed, stuck, write}
use cpp_tcp.Node.Manager.Writing.{write-ne-stuck}
use cpp_tcp.Node.Delivery.{Link, Reach}
use cpp_tcp.Node.Delivery.Writes.Whole.{write-Reach}
use cpp_tcp.Node.Apps.{TransferClient, fill_from, refill, client_wrote, client_send}
use cpp_tcp.Node.Apps.Pattern.{
  pattern, count_up, pattern-append, pattern-eq-count_up, take-drop-fill_from, length-fill_from,
  fill_from_idem, length-pattern,
}
use cpp_tcp.Node.Apps.Reading.{difference, either}

min_le : (n : ℕ) (a b : ℤ) → a ≡ pos n → pos_part (min_ℤ a b) ≤ n
min_le n a b e = rw e (ground arith)

module _ {D : Type 0} (double : DoubleOps D) where
  -- The client sends at this link: its socket is the sending one, it counts the bytes it has sent, its
  -- buffer has this size, holds the pattern unless it is about to be filled, and the pattern is what
  -- has been written so far.
  pub record SendsAt (size : ℕ) (l : Link D) (c : TransferClient) (m : TcpManager D) : Type 0 where
    pub same : l.sender ≡ socket_at double m c.client_sock
    pub there : c.client_sock < length m.all_sockets
    pub pos_is : c.client_pos ≡ pos (length l.written)
    pub buf_size : length c.client_buf ≡ size
    pub filled : (length l.written % size ≡ 0) ⊎ (c.client_buf ≡ fill_from 0 c.client_buf)
    pub shape : l.written ≡ pattern size 0 (length l.written)

  -- The client has stopped, or it sends at a link that is reached.
  abbrev pub StopsOrSends : ℕ → Link D → TransferClient × TcpManager D → Type 0
  StopsOrSends size l r =
      (r.0.client_interval_ms ≡ pos 0)
      ⊎ ((l' : Link D) × Reach double l l' × SendsAt size l' r.0 r.1)

  refill_lem :
      (size n : ℕ) (c : TransferClient)
      → (n % size ≡ 0) ⊎ (c.client_buf ≡ fill_from 0 c.client_buf)
      → (refill double (pos (n % size)) c).client_buf ≡ fill_from 0 c.client_buf
  refill_lem size n c f = elim (Bool-cases (pos (n % size) ==ℤ pos 0)) [
    | inl z ↦ rw z refl
    | inr nz ↦ elim f [ inl z ↦ absurd (ground arith) | inr e ↦ rw nz e ]
  ]

  refill-SendsAt :
      (size : ℕ) (index : ℤ) (l : Link D) (c : TransferClient) (m : TcpManager D)
      → SendsAt size l c m
      → SendsAt size l (refill double index c) m
  refill-SendsAt size index l c m a =
      either (λ d. SendsAt size l d m) (index ==ℤ pos 0) _ _
        (record {
          same = a.same;
          there = a.there;
          pos_is = a.pos_is;
          buf_size = length-fill_from c.client_buf 0 ∙ a.buf_size;
          filled = inr (sym (fill_from_idem c.client_buf 0));
          shape = a.shape;
        })
        a

  -- What is written from the buffer goes on with the pattern.
  goes_on :
      (size k : ℕ) (buf written : List ℕ)
      → 0 < size
      → length buf ≡ size
      → written ≡ pattern size 0 (length written)
      → k ≤ size - length written % size
      → written ++ take k (drop (length written % size) (fill_from 0 buf))
        ≡ pattern size 0 (length written + k)
  goes_on size k buf written h b shape fits =
      let n : ℕ = length written in
      let below : n % size + k ≤ size = grind arith in
      let zero_n : 0 + n ≡ n = omega arith in
      let zero_i : 0 + n % size ≡ n % size = omega arith in
      ap (λ ys. written ++ ys)
        (take-drop-fill_from buf 0 (n % size) k (omega (arith, b))
          ∙ ap (λ i. count_up i k) zero_i
          ∙ sym (pattern-eq-count_up k n size h below)
          ∙ ap (λ p. pattern size p k) (sym zero_n))
      ∙ ap (λ xs. xs ++ pattern size (0 + n) k) shape
      ∙ pattern-append n k 0 size

  after_write :
      (size : ℕ) (now len : ℤ) (l : Link D) (c : TransferClient) (m : TcpManager D)
      (r : TcpManager D × Written)
      → 0 < size
      → SendsAt size l c m
      → c.client_buf ≡ fill_from 0 c.client_buf
      → pos_part len ≤ size - length l.written % size
      → write double c.client_sock now (some c.client_buf) (pos (length l.written % size)) len m ≡ r
      → StopsOrSends size l (client_wrote double c r)
  after_write size now len l c m (m', wrote count) h a full fits e =
      let i = length l.written % size in
      let below : i ≤ size = grind arith in
      let (k, l', count_k, within, reached, same, written, there) =
        write-Reach double c.client_sock now c.client_buf (pos i) len count m m' l a.there a.same
          (omega (arith, a.buf_size)) e in
      let written_is : l'.written ≡ pattern size 0 (length l.written + k) =
        written
        ∙ ap (λ b. l.written ++ take k (drop i b)) full
        ∙ goes_on size k c.client_buf l.written h a.buf_size a.shape (omega (arith, within)) in
      let total : length l'.written ≡ length l.written + k =
        ap length written_is ∙ length-pattern (length l.written + k) 0 size in
      inr (
        l',
        reached,
        record {
          same = same;
          there = there;
          pos_is =
              ap (λ z. z +ℤ count) a.pos_is
              ∙ ap (λ z. pos (length l.written) +ℤ z) count_k
              ∙ pos_add (length l.written) k
              ∙ ap pos (sym total);
          buf_size = a.buf_size;
          filled = inr full;
          shape = written_is ∙ ap (pattern size 0) (sym total);
        },
      )
  after_write size now len l c m (m', failed) h a full fits e = inl refl
  after_write size now len l c m (m', stuck) h a full fits e = absurd (
      write-ne-stuck double c.client_sock now (some c.client_buf) (pos (length l.written % size))
        len m (ap (λ r. r.1) e))

  -- A client that sends over a connection goes on with the pattern: a call either stops it, or leads to
  -- a link that is reached, where what has been written so far is the pattern and the client has
  -- counted it.
  pub client_send-StopsOrSends :
      (size : ℕ) (now : ℤ) (l : Link D) (c : TransferClient) (m : TcpManager D)
      → 0 < size
      → SendsAt size l c m
      → StopsOrSends size l (client_send double now c m)
  unfolding client_send
  client_send-StopsOrSends size now l c m h a =
      let n : ℕ = length l.written in
      let i : ℕ = n % size in
      let below : i ≤ size = grind arith in
      let at_is : rem_ℤ c.client_pos (pos (length c.client_buf)) ≡ pos i =
        rw (a.pos_is, a.buf_size) refl in
      let c' = refill double (pos i) c in
      let full = refill_lem size n c a.filled in
      let len_is : pos (length c.client_buf) -ℤ pos i ≡ pos (size - i) =
        ap (λ b. pos b -ℤ pos i) a.buf_size ∙ difference size i below in
      subst
        (λ index.
          let d = refill double index c in
          StopsOrSends size l (
            client_wrote double d (
              write double d.client_sock now (some d.client_buf) index
                (min_ℤ (pos (length c.client_buf) -ℤ index) d.amount) m)))
        (sym at_is)
        (after_write size now (min_ℤ (pos (length c.client_buf) -ℤ pos i) c'.amount) l c' m _ h
          (refill-SendsAt size (pos i) l c m a)
          (full ∙ sym (ap (fill_from 0) full ∙ fill_from_idem c.client_buf 0))
          (min_le (size - i) (pos (length c.client_buf) -ℤ pos i) c'.amount len_is) refl)
