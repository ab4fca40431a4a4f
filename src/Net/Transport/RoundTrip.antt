-- ===== src/Net/Transport/RoundTrip.antt =====
-- The wire format of segments: from segments to bytes and back.
use cpp_tcp.Base.{ℕ, ◌+◌, ◌-◌, ◌≤◌, ◌≡◌, ap, some, List, ◌∷◌, length, take, take-length, All, arith}
use cpp_tcp.Base.Int.{ℤ, pos, ◌≤ℤ◌}
use cpp_tcp.Base.Bytes.{
  IsByte, IsInt32, byte_of, byte_of_lem, join32, join32-shr, shr-join32, join32-IsInt32,
}
use cpp_tcp.Net.Transport.{Transport, make, illegal, pack, unpack, header_size, max_payload_size}

-- What the constructor guarantees of every segment.
pub record IsTransport (t : Transport) : Type 0 where
  pub src_nonneg : pos 0 ≤ℤ t.src_port
  pub src_le : t.src_port ≤ℤ pos 255
  pub dest_nonneg : pos 0 ≤ℤ t.dest_port
  pub dest_le : t.dest_port ≤ℤ pos 255
  pub type_nonneg : pos 0 ≤ℤ t.type
  pub type_le : t.type ≤ℤ pos 3
  pub size_le : length t.payload ≤ max_payload_size

pub make_lem :
    (t : Transport)
    → IsTransport t
    → make t.src_port t.dest_port t.type t.window t.seq_num t.payload ≡ some t
unfolding make illegal
make_lem t h = ground arith

pub make-IsTransport :
    (src dest type window seq : ℤ) (payload : List ℕ) (t : Transport)
    → make src dest type window seq payload ≡ some t
    → IsTransport t
unfolding make illegal
make-IsTransport src dest type window seq payload t h = ground arith

pub make-fields :
    (src dest type window seq : ℤ) (payload : List ℕ) (t : Transport)
    → make src dest type window seq payload ≡ some t
    → t ≡ record {
      src_port = src;
      dest_port = dest;
      type = type;
      window = window;
      seq_num = seq;
      payload = payload;
    }
unfolding make
make-fields src dest type window seq payload t h = ground arith

-- The two fields of 32 bits hold 32-bit integers.
abbrev pub Fits : Transport → Type 0
Fits t = IsInt32 t.window × IsInt32 t.seq_num

-- The bytes of a segment that the constructor accepts, with a window and a sequence number that fit
-- 32 bits, are read back as that segment.
pub unpack-pack_segment : (t : Transport) → IsTransport t → Fits t → unpack (pack t) ≡ some t
unfolding unpack pack
unpack-pack_segment t h f =
    let n : byte_of (pos (header_size + length t.payload)) ≡ header_size + length t.payload =
      omega (arith, h.size_le) in
    let m : header_size + length t.payload - header_size ≡ length t.payload = omega arith in
    rw
      (
        byte_of_lem t.src_port h.src_nonneg h.src_le,
        byte_of_lem t.dest_port h.dest_nonneg h.dest_le,
        byte_of_lem t.type h.type_nonneg (omega arith),
        join32-shr t.window f.0,
        join32-shr t.seq_num f.1,
        n,
        m,
        take-length t.payload,
        make_lem t h,
      )
      (ground arith)

unpack-cons :
    (d0 d1 d2 d3 d4 d5 d6 d7 d8 d9 d10 n : ℕ) (rest : List ℕ) (t : Transport)
    → unpack (d0 ∷ d1 ∷ d2 ∷ d3 ∷ d4 ∷ d5 ∷ d6 ∷ d7 ∷ d8 ∷ d9 ∷ d10 ∷ n ∷ rest) ≡ some t
    → (n ≡ header_size + length rest)
      × (make (pos d0) (pos d1) (pos d2) (join32 d3 d4 d5 d6) (join32 d7 d8 d9 d10) rest ≡ some t)
unfolding unpack
unpack-cons d0 d1 d2 d3 d4 d5 d6 d7 d8 d9 d10 n rest t h =
    let e : n ≡ header_size + length rest = ground arith in
    let m : n - header_size ≡ length rest = omega arith in
    let g : make (pos d0) (pos d1) (pos d2) (join32 d3 d4 d5 d6) (join32 d7 d8 d9 d10)
          (take (n - header_size) rest)
        ≡ some t =
      ground arith in
    (e, rw (m, take-length rest) at g)

-- Whatever `unpack` accepts of a list of bytes is a segment within the bounds of the constructor,
-- and its window and sequence number are 32-bit integers.
unpack-IsTransport :
    (bytes : List ℕ) (t : Transport)
    → All IsByte bytes
    → unpack bytes ≡ some t
    → IsTransport t × Fits t
unfolding unpack
unpack-IsTransport (d0 ∷ d1 ∷ d2 ∷ d3 ∷ d4 ∷ d5 ∷ d6 ∷ d7 ∷ d8 ∷ d9 ∷ d10 ∷ n ∷ rest) t b h =
    let (_, e) = unpack-cons d0 d1 d2 d3 d4 d5 d6 d7 d8 d9 d10 n rest t h in
    let m = make-fields _ _ _ _ _ _ t e in
    let w = b.1.1.1 in
    let s = b.1.1.1.1.1.1.1 in
    (
      make-IsTransport _ _ _ _ _ _ t e,
      (
        rw (ap (λ (q : Transport). q.window) m)
            (join32-IsInt32 d3 d4 d5 d6 w.0 w.1.0 w.1.1.0 w.1.1.1.0),
        rw (ap (λ (q : Transport). q.seq_num) m)
            (join32-IsInt32 d7 d8 d9 d10 s.0 s.1.0 s.1.1.0 s.1.1.1.0),
      ),
    )
unpack-IsTransport _ t b h = cc

-- If `unpack` accepts a list of bytes, then `pack` of the result writes the very same list.
pub pack-unpack_segment :
    (bytes : List ℕ) (t : Transport) → All IsByte bytes → unpack bytes ≡ some t → pack t ≡ bytes
unfolding unpack pack
pack-unpack_segment (d0 ∷ d1 ∷ d2 ∷ d3 ∷ d4 ∷ d5 ∷ d6 ∷ d7 ∷ d8 ∷ d9 ∷ d10 ∷ n ∷ rest) t b h =
    let (size, e) = unpack-cons d0 d1 d2 d3 d4 d5 d6 d7 d8 d9 d10 n rest t h in
    rw (make-fields _ _ _ _ _ _ t e)
      (ground (arith, shr-join32 d3 d4 d5 d6, shr-join32 d7 d8 d9 d10))
pack-unpack_segment _ t b h = cc
