-- ===== src/Base/Bytes.antt =====
-- Bytes, and the four-byte big-endian form of a 32-bit integer that all the wire formats share.
use cpp_tcp.Base.Tests.{ltb, if◌then◌else◌}
use cpp_tcp.Base.Int.{ℤ, pos, negsuc, ◌≤ℤ◌}
use Prim.Native.Nat.{ℕ, ◌+◌, ◌-◌, ◌*◌, ◌/◌, ◌%◌, ◌^◌, ◌<◌}
use mathlib.Core.Path.{◌≡◌}
use native.Mathlib.Omega.{arith}

abbrev pub IsByte : ℕ → Type 0
IsByte b = b < 256

-- The values of `std::int32_t`.
abbrev pub IsInt32 : ℤ → Type 0
IsInt32 v = (negsuc (2 ^ 31 - 1) ≤ℤ v) × (v ≤ℤ pos (2 ^ 31 - 1))

-- `static_cast<std::uint8_t>(v)`: the remainder modulo 256.
abbrev pub byte_of : ℤ → ℕ
byte_of (pos n) = n % 256
byte_of (negsuc n) = 255 - n % 256

-- The conversion to `std::uint16_t`: the remainder modulo 2 ^ 16.
abbrev pub u16_of : ℤ → ℤ
u16_of (pos n) = pos (n % 2 ^ 16)
u16_of (negsuc n) = pos (2 ^ 16 - 1 - n % 2 ^ 16)

-- `v >> k`, which rounds down.
abbrev pub shr : ℤ → ℕ → ℤ
shr (pos n) k = pos (n / 2 ^ k)
shr (negsuc n) k = negsuc (n / 2 ^ k)

-- The integer that a 32-bit pattern stands for.
abbrev pub signed32 : ℕ → ℤ
signed32 w = if ltb w (2 ^ 31) then pos w else negsuc (2 ^ 32 - w - 1)

-- `static_cast<int>(v)`: the remainder modulo 2 ^ 32 as a signed number.
abbrev pub int32_of : ℤ → ℤ
int32_of (pos n) = signed32 (n % 2 ^ 32)
int32_of (negsuc n) = signed32 (2 ^ 32 - 1 - n % 2 ^ 32)

-- `(a << 24) | (b << 16) | (c << 8) | d` on bytes, whose bits do not overlap.
unfoldable pub join32 : ℕ → ℕ → ℕ → ℕ → ℤ
join32 a b c d = signed32 (a * 2 ^ 24 + b * 2 ^ 16 + c * 2 ^ 8 + d)

-- The four bytes of an `std::int32_t` read back as that integer.
pub join32-shr :
    (v : ℤ)
    → IsInt32 v
    → join32 (byte_of (shr v 24)) (byte_of (shr v 16)) (byte_of (shr v 8)) (byte_of v) ≡ v
unfolding join32
join32-shr (pos n) h = ground arith
join32-shr (negsuc n) h = ground arith

-- The other way round: the integer read from four bytes has those bytes.
pub shr-join32 :
    (a b c d : ℕ)
    → IsByte a
    → IsByte b
    → IsByte c
    → IsByte d
    → (byte_of (shr (join32 a b c d) 24) ≡ a)
      × (byte_of (shr (join32 a b c d) 16) ≡ b)
      × (byte_of (shr (join32 a b c d) 8) ≡ c)
      × (byte_of (join32 a b c d) ≡ d)
unfolding join32
shr-join32 a b c d ha hb hc hd = ground arith

pub join32-IsInt32 :
    (a b c d : ℕ) → IsByte a → IsByte b → IsByte c → IsByte d → IsInt32 (join32 a b c d)
unfolding join32
join32-IsInt32 a b c d ha hb hc hd = ground arith

-- A value that fits a byte is not changed by the cast.
pub byte_of_lem : (v : ℤ) → pos 0 ≤ℤ v → v ≤ℤ pos 255 → pos (byte_of v) ≡ v
byte_of_lem (pos n) lo hi = ground arith
byte_of_lem (negsuc n) lo hi = absurd (omega arith)
