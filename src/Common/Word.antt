-- ===== src/Common/Word.antt =====
-- u32 and i32 as std gives them: the casts between them, and `to_ne_bytes` and `from_ne_bytes`,
-- whose byte order is the target's.
use Prim.Native.Nat.{ℕ, ◌+◌, ◌-◌, ◌*◌, ◌/◌, ◌%◌, ◌^◌, ◌<◌, bit_and, bit_or}
use mathlib.Core.Path.{◌≡◌, refl}
use mathlib.Core.List.{List, [], ◌∷◌, ◌++◌}
use native.Mathlib.Omega.{arith}
use wayland_rs.Common.Tests.{ltb, if◌then◌else◌}
use wayland_rs.Common.Lists.{length}
use wayland_rs.Common.Bits.{bit_and-low_half, bit_or-halves}

-- The byte order of the machine.
pub data Endian : Type 0 where
  little big : Endian

-- i32 values; `negsuc n` is -(n + 1).
pub data ℤ : Type 0 where
  pos : ℕ → ℤ
  negsuc : ℕ → ℤ

abbrev pub IsU8 : ℕ → Type 0
IsU8 b = b < 256

abbrev pub IsU16 : ℕ → Type 0
IsU16 v = v < 2 ^ 16

abbrev pub IsU32 : ℕ → Type 0
IsU32 v = v < 2 ^ 32

abbrev pub IsI32 : ℤ → Type 0
IsI32 (pos n) = n < 2 ^ 31
IsI32 (negsuc n) = n < 2 ^ 31

-- `i as u32` and `u as i32`
unfoldable pub as_u32 : ℤ → ℕ
as_u32 (pos n) = n % 2 ^ 32
as_u32 (negsuc n) = 2 ^ 32 - 1 - n % 2 ^ 32

unfoldable pub as_i32 : ℕ → ℤ
as_i32 u = if ltb u (2 ^ 31) then pos u else negsuc (2 ^ 32 - 1 - u)

pub as_i32-as_u32 : (i : ℤ) → IsI32 i → as_i32 (as_u32 i) ≡ i
unfolding as_i32 as_u32
as_i32-as_u32 (pos n) h = ground arith
as_i32-as_u32 (negsuc n) h = ground arith

pub as_u32_lt : (i : ℤ) → IsU32 (as_u32 i)
unfolding as_u32
as_u32_lt (pos n) = omega arith
as_u32_lt (negsuc n) = omega arith

unfoldable pub to_ne_bytes : Endian → ℕ → List ℕ
to_ne_bytes little u = (u % 256) ∷ (u / 256 % 256) ∷ (u / 65536 % 256) ∷ (u / 16777216 % 256) ∷ []
to_ne_bytes big u = (u / 16777216 % 256) ∷ (u / 65536 % 256) ∷ (u / 256 % 256) ∷ (u % 256) ∷ []

unfoldable pub from_ne_bytes : Endian → ℕ → ℕ → ℕ → ℕ → ℕ
from_ne_bytes little a b c d = a + b * 256 + c * 65536 + d * 16777216
from_ne_bytes big a b c d = d + c * 256 + b * 65536 + a * 16777216

-- The first four bytes of a slice as a u32, and the rest; the slice has four bytes at least
-- wherever this is called.
unfoldable pub split_u32 : Endian → List ℕ → ℕ × List ℕ
unfolding from_ne_bytes
split_u32 e (a ∷ b ∷ c ∷ d ∷ rest) = (from_ne_bytes e a b c d, rest)
split_u32 e short = (0, short)

pub length-to_ne_bytes : (e : Endian) (u : ℕ) → length (to_ne_bytes e u) ≡ 4
unfolding to_ne_bytes
length-to_ne_bytes little u = refl
length-to_ne_bytes big u = refl

pub split_u32-to_ne_bytes :
    (e : Endian) (u : ℕ) (rest : List ℕ)
    → IsU32 u
    → split_u32 e (to_ne_bytes e u ++ rest) ≡ (u, rest)
unfolding split_u32 to_ne_bytes
split_u32-to_ne_bytes little u rest h = ground arith
split_u32-to_ne_bytes big u rest h = ground arith

-- `(size << 16) | opcode` on a u32, and the two fields taken out again.
unfoldable pub pack_header : ℕ → ℕ → ℕ
pack_header size opcode = bit_or (size * 65536 % 2 ^ 32) opcode

unfoldable pub header_opcode : ℕ → ℕ
header_opcode word = bit_and word 0x0000_FFFF

unfoldable pub header_len : ℕ → ℕ
header_len word = word / 65536

pub pack_header_lem :
    (size opcode : ℕ)
    → size < 65536
    → IsU16 opcode
    → pack_header size opcode ≡ size * 65536 + opcode
unfolding pack_header
pack_header_lem size opcode h k =
    let e : size * 65536 % 2 ^ 32 ≡ size * 65536 = omega arith in rw e (bit_or-halves size opcode k)

pub pack_header_lt :
    (size opcode : ℕ) → size < 65536 → IsU16 opcode → IsU32 (pack_header size opcode)
pack_header_lt size opcode h k = omega (arith, pack_header_lem size opcode h k)

pub header_opcode-pack :
    (size opcode : ℕ)
    → size < 65536
    → IsU16 opcode
    → header_opcode (pack_header size opcode) ≡ opcode
unfolding header_opcode
header_opcode-pack size opcode h k =
    rw (bit_and-low_half (pack_header size opcode)) (omega (arith, pack_header_lem size opcode h k))

pub header_len-pack :
    (size opcode : ℕ) → size < 65536 → IsU16 opcode → header_len (pack_header size opcode) ≡ size
unfolding header_len
header_len-pack size opcode h k = omega (arith, pack_header_lem size opcode h k)
