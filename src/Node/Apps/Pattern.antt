-- ===== src/Node/Apps/Pattern.antt =====
-- The pattern of bytes that a client sends: the position in its buffer, as a byte.
use cpp_tcp.Base.{
  ℕ, zero, suc, ◌+◌, ◌%◌, ◌≤◌, ◌<◌, ◌≡◌, refl, ap, ◌∙◌, false, List, [], ◌∷◌, ◌++◌, length, take,
  drop, arith,
}
use cpp_tcp.Node.Apps.{fill_from, is_corrupt}

-- `n` bytes of the stream from position `p` on, written through a buffer of this size.
abbrev pub pattern : ℕ → ℕ → ℕ → List ℕ
pattern size p zero = []
pattern size p (suc n) = (p % size % 256) ∷ pattern size (suc p) n

-- `n` bytes that count up from `i`.
abbrev pub count_up : ℕ → ℕ → List ℕ
count_up i zero = []
count_up i (suc n) = (i % 256) ∷ count_up (suc i) n

mod_suc : (p size : ℕ) → suc (p % size) < size → suc p % size ≡ suc (p % size)
mod_suc p size h = grind arith

pub pattern-eq-count_up :
    (n p size : ℕ) → 0 < size → p % size + n ≤ size → pattern size p n ≡ count_up (p % size) n
pattern-eq-count_up zero p size h k = refl
pattern-eq-count_up (suc zero) p size h k = refl
pattern-eq-count_up (suc (suc n)) p size h k =
    let e : suc p % size ≡ suc (p % size) = mod_suc p size (omega arith) in
    let ih : pattern size (suc p) (suc n) ≡ count_up (suc p % size) (suc n) =
      pattern-eq-count_up (suc n) (suc p) size h (omega (arith, e)) in
    ap (λ xs. (p % size % 256) ∷ xs) (ih ∙ ap (λ i. count_up i (suc n)) e)

pub length-pattern : (n p size : ℕ) → length (pattern size p n) ≡ n
length-pattern zero p size = refl
length-pattern (suc n) p size = ap suc (length-pattern n (suc p) size)

pub pattern-append :
    (m n p size : ℕ) → pattern size p m ++ pattern size (p + m) n ≡ pattern size p (m + n)
pattern-append zero n p size =
    let e : p + 0 ≡ p = omega arith in let f : 0 + n ≡ n = omega arith in rw (e, f) refl
pattern-append (suc m) n p size =
    let e : p + suc m ≡ suc p + m = omega arith in
    let f : suc m + n ≡ suc (m + n) = omega arith in
    rw (e, f) (ap (λ xs. (p % size % 256) ∷ xs) (pattern-append m n (suc p) size))

pub take-drop-pattern :
    (d k n p size : ℕ) → d + k ≤ n → take k (drop d (pattern size p n)) ≡ pattern size (p + d) k
take-drop-pattern zero zero n p size h = refl
take-drop-pattern zero (suc k) zero p size h = absurd (omega arith)
take-drop-pattern zero (suc k) (suc n) p size h =
    let e : p + 0 ≡ p = omega arith in
    rw e (
      ap (λ xs. (p % size % 256) ∷ xs)
        (let f : suc p + 0 ≡ suc p = omega arith in
          rw f at (take-drop-pattern zero k n (suc p) size (omega arith))))
take-drop-pattern (suc d) k zero p size h = let e : k ≡ 0 = omega arith in rw e refl
take-drop-pattern (suc d) k (suc n) p size h =
    let e : p + suc d ≡ suc p + d = omega arith in
    rw e (take-drop-pattern d k n (suc p) size (omega arith))

-- What a client's buffer holds between two positions.
pub take-drop-fill_from :
    (buf : List ℕ) (j i n : ℕ)
    → i + n ≤ length buf
    → take n (drop i (fill_from j buf)) ≡ count_up (j + i) n
take-drop-fill_from buf j zero zero h = refl
take-drop-fill_from [] j zero (suc n) h = absurd (omega arith)
take-drop-fill_from [] j (suc i) n h = absurd (omega arith)
take-drop-fill_from (x ∷ buf) j zero (suc n) h =
    let e : j + 0 ≡ j = omega arith in
    let f : suc j + 0 ≡ suc j = omega arith in
    rw e
      (ap (λ xs. (j % 256) ∷ xs) (rw f at (take-drop-fill_from buf (suc j) zero n (omega arith))))
take-drop-fill_from (x ∷ buf) j (suc i) n h =
    let e : j + suc i ≡ suc j + i = omega arith in
    rw e (take-drop-fill_from buf (suc j) i n (omega arith))

pub length-fill_from : (buf : List ℕ) (j : ℕ) → length (fill_from j buf) ≡ length buf
length-fill_from [] j = refl
length-fill_from (x ∷ buf) j = ap suc (length-fill_from buf (suc j))

pub fill_from_idem : (buf : List ℕ) (j : ℕ) → fill_from j (fill_from j buf) ≡ fill_from j buf
fill_from_idem [] j = refl
fill_from_idem (x ∷ buf) j = ap (λ xs. (j % 256) ∷ xs) (fill_from_idem buf (suc j))

pub is_corrupt-count_up : (n i : ℕ) → is_corrupt i (count_up i n) ≡ false
is_corrupt-count_up zero i = refl
is_corrupt-count_up (suc n) i = ground (arith, is_corrupt-count_up n (suc i))
