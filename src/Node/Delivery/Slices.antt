-- ===== src/Node/Delivery/Slices.antt =====
-- Runs of bytes at their places in a stream, and runs of segments that follow one another.
use cpp_tcp.Base.{
  ℕ, suc, ◌<◌, ◌≡◌, refl, sym, ap, ◌∙◌, Option, some, List, [], ◌∷◌, ◌++◌, length, arith, map,
  Bool-cases, inl, inr,
}
use mathlib.Core.List.{append_assoc}
use cpp_tcp.Base.Int.{ℤ, pos, ◌+ℤ◌, ◌≤ℤ◌, leb_ℤ, +ℤ_parts}
use cpp_tcp.Node.Socket.{OutstandingSeg, pop_acked}
use cpp_tcp.Node.Manager.Timer.{mark_retransmitted}

-- The bytes stand in the stream from the sequence number on. The first byte of a stream has number 1.
pub record Slice (stream : List ℕ) (seq_num : ℤ) (bytes : List ℕ) : Type 0 where
  pub before : List ℕ
  pub after : List ℕ
  pub splits : stream ≡ before ++ (bytes ++ after)
  pub place : seq_num ≡ pos (suc (length before))

-- What is written later does not move what was written before.
pub Slice-append :
    {stream : List ℕ} {q : ℤ} {bytes : List ℕ} (more : List ℕ)
    → Slice stream q bytes
    → Slice (stream ++ more) q bytes
Slice-append {bytes = bytes} more s = record {
  before = s.before;
  after = s.after ++ more;
  splits =
      ap (λ w. w ++ more) s.splits
      ∙ append_assoc s.before (bytes ++ s.after) more
      ∙ ap (◌++◌ s.before) (append_assoc bytes s.after more);
  place = s.place;
}

pub append-cancel :
    (xs ys us vs : List ℕ) → xs ++ us ≡ ys ++ vs → length xs ≡ length ys → (xs ≡ ys) × (us ≡ vs)
append-cancel [] [] us vs e h = (refl, e)
append-cancel [] (y ∷ ys) us vs e h = absurd (omega arith)
append-cancel (x ∷ xs) [] us vs e h = absurd (omega arith)
append-cancel (x ∷ xs) (y ∷ ys) us vs e h = ground (arith, append-cancel xs ys us vs)

-- The segments follow one another without a gap, none is empty, each holds its piece of the stream,
-- and they reach from the first number to the second.
abbrev pub Chain : List ℕ → ℤ → List OutstandingSeg → ℤ → Type 0
Chain stream a [] b = a ≡ b
Chain stream a (seg ∷ segs) b =
    (seg.seq_start ≡ a)
    × (seg.len ≡ pos (length seg.bytes))
    × (0 < length seg.bytes)
    × Slice stream seg.seq_start seg.bytes
    × Chain stream (a +ℤ seg.len) segs b

pub Chain-append :
    (stream more : List ℕ) (a b : ℤ) (segs : List OutstandingSeg)
    → Chain stream a segs b
    → Chain (stream ++ more) a segs b
Chain-append stream more a b [] c = c
Chain-append stream more a b (seg ∷ segs) (s, n, p, w, c) =
    (s, n, p, Slice-append more w, Chain-append stream more (a +ℤ seg.len) b segs c)

-- A segment at the end.
pub Chain-snoc :
    (stream : List ℕ) (a b : ℤ) (segs : List OutstandingSeg) (seg : OutstandingSeg)
    → Chain stream a segs b
    → seg.seq_start ≡ b
    → seg.len ≡ pos (length seg.bytes)
    → 0 < length seg.bytes
    → Slice stream seg.seq_start seg.bytes
    → Chain stream a (segs ++ (seg ∷ [])) (b +ℤ seg.len)
Chain-snoc stream a b [] seg c s n p w = (s ∙ sym c, n, p, w, ap (λ x. x +ℤ seg.len) c)
Chain-snoc stream a b (x ∷ xs) seg (s', n', p', w', c) s n p w =
    (s', n', p', w', Chain-snoc stream (a +ℤ x.len) b xs seg c s n p w)

pub Chain-retransmitted :
    (stream : List ℕ) (a b : ℤ) (segs : List OutstandingSeg)
    → Chain stream a segs b
    → Chain stream a (map mark_retransmitted segs) b
Chain-retransmitted stream a b [] c = c
Chain-retransmitted stream a b (seg ∷ segs) (s, n, p, w, c) =
    (s, n, p, w, Chain-retransmitted stream (a +ℤ seg.len) b segs c)

pub Chain-le :
    (stream : List ℕ) (a b : ℤ) (segs : List OutstandingSeg) → Chain stream a segs b → a ≤ℤ b
Chain-le stream a b [] c = ground arith
Chain-le stream a b (seg ∷ segs) (s, n, p, w, c) =
    ground (arith, Chain-le stream (a +ℤ seg.len) b segs c, +ℤ_parts a seg.len)

-- Popping what is acknowledged leaves a chain that starts no later than the acknowledged number.
pub Chain-pop_acked :
    (stream : List ℕ) (n a b : ℤ) (last : Option OutstandingSeg) (segs : List OutstandingSeg)
    → Chain stream a segs b
    → a ≤ℤ n
    → (a' : ℤ) × (a' ≤ℤ n) × Chain stream a' (pop_acked n last segs).0 b
unfolding pop_acked
Chain-pop_acked stream n a b last [] c h = (a, h, c)
Chain-pop_acked stream n a b last (seg ∷ segs) (s, l, p, w, c) h =
    elim (Bool-cases (leb_ℤ (seg.seq_start +ℤ seg.len) n)) [
      | inl popped ↦
          rw popped
            (Chain-pop_acked stream n (a +ℤ seg.len) b (some seg) segs c (rw (← s) (ground arith)))
      | inr kept ↦ rw kept (a, h, (s, l, p, w, c))
    ]
