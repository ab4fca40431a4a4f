-- ===== src/Node/Apps/Reading.antt =====
-- A worker at the receiving end of a connection, on which the pattern is written.
use mathlib.Core.List.{append_assoc}
use cpp_tcp.Base.{
  ℕ, zero, suc, ◌+◌, ◌-◌, ◌%◌, ◌≤◌, ◌<◌, ◌≡◌, ◌≢◌, ◌⊎◌, inl, inr, refl, sym, ap, ◌∙◌, subst, Bool,
  true, false, not, ◌&&◌, Option, some, List, [], ◌∷◌, ◌++◌, length, length-append, length-set,
  length-take, take, drop, set, drop-append_self, get_or-set_self, if◌then◌else◌, min, arith,
}
use cpp_tcp.Base.Int.{ℤ, pos, pos_part, minus_one, ◌+ℤ◌, ◌-ℤ◌, ltb_ℤ, ◌==ℤ◌, min_ℤ, rem_ℤ, pos_add}
use cpp_tcp.Base.Double.{DoubleOps}
use cpp_tcp.Node.Socket.{TcpSocket, fresh, is_closed, close_if_drained, overwrite, read}
use cpp_tcp.Node.Manager.{TcpManager, socket_at, put}
use cpp_tcp.Node.Delivery.{Link, IsOpened, Reach, here, next, reads}
use cpp_tcp.Node.Delivery.Invariant.{Inv}
use cpp_tcp.Node.Delivery.InOrder.{opened-Inv, Reach-Inv}
use cpp_tcp.Node.Apps.{
  TransferWorker, Report, going, aborted, corrupted, finished, is_corrupt, or_buf, worker_read,
  worker_execute,
}
use cpp_tcp.Node.Apps.Pattern.{
  pattern, count_up, take-drop-pattern, pattern-eq-count_up, is_corrupt-count_up,
}

overwrite_cons :
    (b : ℕ) (buf : List ℕ) (i : ℕ) (xs : List ℕ)
    → overwrite (b ∷ buf) (suc i) xs ≡ b ∷ overwrite buf i xs
overwrite_cons b buf i [] = refl
overwrite_cons b buf i (x ∷ xs) = overwrite_cons b (set buf i x) (suc i) xs

length-overwrite : (buf : List ℕ) (i : ℕ) (xs : List ℕ) → length (overwrite buf i xs) ≡ length buf
length-overwrite buf i [] = refl
length-overwrite buf i (x ∷ xs) = length-overwrite (set buf i x) (suc i) xs ∙ length-set buf i x

-- What was copied into a buffer stands there.
take-drop-overwrite :
    (xs buf : List ℕ) (i : ℕ)
    → i + length xs ≤ length buf
    → take (length xs) (drop i (overwrite buf i xs)) ≡ xs
take-drop-overwrite [] buf i h = refl
take-drop-overwrite (x ∷ xs) [] i h = absurd (omega arith)
take-drop-overwrite (x ∷ xs) (b ∷ buf) zero h =
    rw (overwrite_cons x buf 0 xs)
      (ap (λ ys. x ∷ ys) (take-drop-overwrite xs buf zero (omega arith)))
take-drop-overwrite (x ∷ xs) (b ∷ buf) (suc i) h =
    ap (λ ys. take (suc (length xs)) (drop (suc i) ys)) (overwrite_cons b buf i (x ∷ xs))
    ∙ take-drop-overwrite (x ∷ xs) buf i (omega arith)

pub take-append-le : (k : ℕ) (xs ys : List ℕ) → k ≤ length xs → take k (xs ++ ys) ≡ take k xs
take-append-le zero xs ys h = refl
take-append-le (suc k) [] ys h = absurd (omega arith)
take-append-le (suc k) (x ∷ xs) ys h = ap (λ zs. x ∷ zs) (take-append-le k xs ys (omega arith))

-- A property that both branches of a test have.
pub either : {T : Type 0} (P : T → Type 0) (b : Bool) (x y : T) → P x → P y → P (if b then x else y)
either P true x y h k = h
either P false x y h k = k

module _ {D : Type 0} where
  -- What `read` returns: a refusal, or the number of bytes that it has copied from the front of the
  -- receive buffer.
  abbrev Copies : List ℕ → ℕ → ℕ → TcpSocket D → TcpSocket D × Option (List ℕ) × ℤ → Type 0
  Copies buf i n s r =
      (r.2 ≡ minus_one)
      ⊎ ((k : ℕ) × (r.2 ≡ pos k)
          × (k ≤ n)
          × (k ≤ length s.recv_buf)
          × (or_buf buf r.1 ≡ overwrite buf i (take k s.recv_buf)))

  read-Copies :
      (buf : List ℕ) (i n : ℕ) (s : TcpSocket D)
      → s.recv_buf_used ≡ pos (length s.recv_buf)
      → Copies buf i n s (read (some buf) (pos i) (pos n) s)
  unfolding read
  read-Copies buf i n s used =
      let k : ℕ = min n (length s.recv_buf) in
      let k_is : min_ℤ (pos n) s.recv_buf_used ≡ pos k = ground arith in
      let refused : TcpSocket D × Option (List ℕ) × ℤ = (s, some buf, minus_one) in
      let nothing_left : TcpSocket D × Option (List ℕ) × ℤ =
        (close_if_drained s, some buf, pos 0) in
      either (Copies buf i n s) _ refused _ (inl refl) (
        either (Copies buf i n s) _ nothing_left _ (inr (0, refl, omega arith, omega arith, refl)) (
          inr (
            k,
            k_is,
            omega arith,
            omega arith,
            ap (λ z. overwrite buf i (take (pos_part z) s.recv_buf)) k_is,
          )))

  -- The bytes that a worker reads next are those of the pattern.
  next_bytes :
      (size k : ℕ) (l : Link D)
      → Inv l
      → 0 < size
      → l.written ≡ pattern size 0 (length l.written)
      → k ≤ length l.receiver.recv_buf
      → k ≤ size - length l.taken % size
      → take k l.receiver.recv_buf ≡ count_up (length l.taken % size) k
  next_bytes size k l v h shape there fits =
      let buf = l.receiver.recv_buf in
      let rest = v.received.0 in
      let got : ℕ = length l.taken in
      let whole : l.taken ++ (buf ++ rest) ≡ pattern size 0 (length l.written) =
        sym (append_assoc l.taken buf rest) ∙ sym v.received.1 ∙ shape in
      let total : length l.written ≡ got + (length buf + length rest) =
        ap length (v.received.1 ∙ append_assoc l.taken buf rest)
        ∙ length-append l.taken (buf ++ rest)
        ∙ ap (λ z. got + z) (length-append buf rest) in
      let below : got % size + k ≤ size = grind arith in
      let zero_add : 0 + got ≡ got = omega arith in
      sym (take-append-le k buf rest there)
      ∙ ap (take k) (sym (drop-append_self l.taken (buf ++ rest)) ∙ ap (drop got) whole)
      ∙ take-drop-pattern got k (length l.written) 0 size (omega (arith, total))
      ∙ ap (λ p. pattern size p k) zero_add
      ∙ pattern-eq-count_up k got size h below

going-ne-corrupted : going ≢ corrupted
going-ne-corrupted e = cc

finished-ne-corrupted : finished ≢ corrupted
finished-ne-corrupted e = cc

finished-ne-going : finished ≢ going
finished-ne-going e = cc

pub difference : (a b : ℕ) → b ≤ a → pos a -ℤ pos b ≡ pos (a - b)
unfolding ◌-ℤ◌
difference a b h = ground arith

module _ {D : Type 0} (double : DoubleOps D) where
  worker_read_refused :
      (i : ℕ) (w : TransferWorker) (buf : List ℕ) (count : ℤ) (m : TcpManager D)
      → count ≡ minus_one
      → (worker_read double i w buf count m).2 ≡ aborted
  worker_read_refused i w buf count m e = rw e refl

  worker_read_clean :
      (i k : ℕ) (w : TransferWorker) (buf : List ℕ) (count : ℤ) (m : TcpManager D)
      → count ≡ pos k
      → is_corrupt i (take k (drop i buf)) ≡ false
      → worker_read double i w buf count m
        ≡ (record w { worker_buf = buf; worker_pos = w.worker_pos +ℤ pos k }, m, going)
  worker_read_clean i k w buf count m e clean =
      let some_read : (pos k ==ℤ minus_one) ≡ false = ground arith in
      let fine : (ltb_ℤ (pos 0) (pos k) && is_corrupt i (take k (drop i buf))) ≡ false =
        ground (arith, clean) in
      rw (e, some_read, fine) refl

  -- The worker reads at this link: its socket is the receiving one, it counts the bytes it has read,
  -- and its buffer has this size.
  pub record ReadsAt (size : ℕ) (l : Link D) (w : TransferWorker) (m : TcpManager D) : Type 0 where
    pub same : l.receiver ≡ socket_at double m w.worker_sock
    pub there : w.worker_sock < length m.all_sockets
    pub pos_is : w.worker_pos ≡ pos (length l.taken)
    pub buf_size : length w.worker_buf ≡ size

  -- No report of corruption, and where the worker goes on it reads at a link that is reached.
  abbrev pub Clean : ℕ → Link D → TransferWorker × TcpManager D × Report → Type 0
  Clean size l r =
      (r.2 ≢ corrupted)
      × (r.2 ≡ going
          → (l' : Link D) × Reach double l l' × (l'.written ≡ l.written) × ReadsAt size l' r.0 r.1)

  read_step :
      (size k : ℕ) (at len : ℤ) (l : Link D) (w : TransferWorker) (m : TcpManager D)
      → ReadsAt size l w m
      → let s = socket_at double m w.worker_sock in
        let r = read (some w.worker_buf) at len s in
        r.2 ≡ pos k
        → length (take k s.recv_buf) ≡ k
        → length (or_buf w.worker_buf r.1) ≡ size
        → (l' : Link D) × Reach double l l'
          × (l'.written ≡ l.written)
          × ReadsAt size l'
              (record w {
                worker_buf = or_buf w.worker_buf r.1;
                worker_pos = w.worker_pos +ℤ pos k;
              })
              (put m w.worker_sock r.0)
  read_step size k at len l w m a count size_k size_b =
      let s = socket_at double m w.worker_sock in
      let r = read (some w.worker_buf) at len s in
      let l' : Link D = record l {
        receiver = r.0;
        taken = l.taken ++ take (pos_part r.2) s.recv_buf;
      } in
      let reached : Reach double l l' =
        subst
          (λ s. Reach double l (record l {
            receiver = (read (some w.worker_buf) at len s).0;
            taken = l.taken ++ take (pos_part (read (some w.worker_buf) at len s).2) s.recv_buf;
          }))
          a.same (next here (reads w.worker_buf at len)) in
      let more : length (take (pos_part r.2) s.recv_buf) ≡ k =
        ap (λ c. length (take (pos_part c) s.recv_buf)) count ∙ size_k in
      (
        l',
        reached,
        refl,
        record {
          same = sym (get_or-set_self m.all_sockets w.worker_sock r.0 (fresh double) a.there);
          there = omega (arith, a.there, length-set m.all_sockets w.worker_sock r.0);
          pos_is =
              ap (λ z. z +ℤ pos k) a.pos_is
              ∙ pos_add (length l.taken) k
              ∙ ap pos
                  (omega (arith, more, length-append l.taken (take (pos_part r.2) s.recv_buf)));
          buf_size = size_b;
        },
      )

  after_read :
      (size : ℕ) (l : Link D) (w : TransferWorker) (m : TcpManager D)
      → Inv l
      → 0 < size
      → l.written ≡ pattern size 0 (length l.written)
      → ReadsAt size l w m
      → let i = length l.taken % size in
        let r =
          read (some w.worker_buf) (pos i) (pos (size - i)) (socket_at double m w.worker_sock) in
        Clean size l
          (worker_read double i w (or_buf w.worker_buf r.1) r.2 (put m w.worker_sock r.0))
  after_read size l w m v h shape a =
      let i = length l.taken % size in
      let s = socket_at double m w.worker_sock in
      let r = read (some w.worker_buf) (pos i) (pos (size - i)) s in
      let m' = put m w.worker_sock r.0 in
      let used : s.recv_buf_used ≡ pos (length s.recv_buf) =
        subst (λ s. s.recv_buf_used ≡ pos (length s.recv_buf)) a.same v.counted in
      elim (read-Copies w.worker_buf i (size - i) s used) [
        | inl refused ↦
            let e = worker_read_refused i w (or_buf w.worker_buf r.1) r.2 m' refused in
            (λ bad. cc, λ on. cc)
        | inr (k, count, fits, some_left, copied) ↦
            let bytes = take k s.recv_buf in
            let there : k ≤ length l.receiver.recv_buf = rw a.same some_left in
            let shown : bytes ≡ count_up i k =
              ap (λ s. take k s.recv_buf) (sym a.same) ∙ next_bytes size k l v h shape there fits in
            let size_k : length bytes ≡ k = omega (arith, length-take k s.recv_buf) in
            let below : i < size = grind arith in
            let clean : is_corrupt i (take k (drop i (or_buf w.worker_buf r.1))) ≡ false =
              ap (λ b. is_corrupt i (take k (drop i b))) copied
              ∙ ap (λ n. is_corrupt i (take n (drop i (overwrite w.worker_buf i bytes))))
                  (sym size_k)
              ∙ ap (is_corrupt i) (
                  take-drop-overwrite bytes w.worker_buf i (omega (arith, a.buf_size, size_k))
                  ∙ shown)
              ∙ is_corrupt-count_up k i in
            let e = worker_read_clean i k w (or_buf w.worker_buf r.1) r.2 m' count clean in
            subst (Clean size l) (sym e) (
              going-ne-corrupted,
              λ on.
                  read_step size k (pos i) (pos (size - i)) l w m a count size_k
                    (ap length copied ∙ length-overwrite w.worker_buf i bytes ∙ a.buf_size),
            )
      ]

  -- With whole buffers of the pattern written at the other end from the start of the connection on, a
  -- worker never reports corruption, and as long as it goes on, it has taken what it read from the
  -- connection in order.
  pub worker_execute-Clean :
      (size : ℕ) (l₀ l : Link D) (w : TransferWorker) (m : TcpManager D)
      → IsOpened l₀
      → Reach double l₀ l
      → 0 < size
      → l.written ≡ pattern size 0 (length l.written)
      → ReadsAt size l w m
      → Clean size l (worker_execute double w m)
  unfolding worker_execute
  worker_execute-Clean size l₀ l w m o reached h shape a =
      let i = length l.taken % size in
      let v = Reach-Inv double (opened-Inv l₀ o) reached in
      let s = socket_at double m w.worker_sock in
      let at_is : rem_ℤ w.worker_pos (pos (length w.worker_buf)) ≡ pos i =
        rw (a.pos_is, a.buf_size) refl in
      let below : i ≤ size = grind arith in
      let len_is : pos (length w.worker_buf) -ℤ rem_ℤ w.worker_pos (pos (length w.worker_buf))
          ≡ pos (size - i) =
        ap (λ n. pos (length w.worker_buf) -ℤ n) at_is
        ∙ ap (λ n. pos n -ℤ pos i) a.buf_size
        ∙ difference size i below in
      either (Clean size l) (not (is_closed s.state)) _ _
        (subst
          (λ len.
            let at = rem_ℤ w.worker_pos (pos (length w.worker_buf)) in
            let r = read (some w.worker_buf) at len s in
            Clean size l (
              worker_read double (pos_part at) w (or_buf w.worker_buf r.1) r.2
                (put m w.worker_sock r.0)))
          (sym len_is)
          (subst
            (λ at.
              let r = read (some w.worker_buf) at (pos (size - i)) s in
              Clean size l (
                worker_read double (pos_part at) w (or_buf w.worker_buf r.1) r.2
                  (put m w.worker_sock r.0)))
            (sym at_is) (after_read size l w m v h shape a)))
        (finished-ne-corrupted, λ on. absurd (finished-ne-going on))
