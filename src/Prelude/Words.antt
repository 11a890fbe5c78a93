-- ===== src/Prelude/Words.antt =====
-- Machine words as native numbers, and big-endian reads from a byte list.
use Prim.Native.Nat.{ℕ, ◌+◌, ◌-◌, ◌*◌, ◌%◌, ◌^◌, ◌≤◌, ◌<◌, bit_and}
use mathlib.Core.List.{List, [], ◌∷◌}
use mathlib.Core.Bool.{Bool, not, ◌&&◌}
use mathlib.Core.Option.{Option, none, some}
use mathlib.Core.Path.{◌≡◌, refl}
use native.Mathlib.Omega.{arith}
use sip_exporter.Prelude.Tests.{◌==◌, leb, le→leb, if◌then◌else◌}
use sip_exporter.Prelude.Lists.{length, get_or, get_elem?, slice, All}

abbrev pub u8 : ℕ → ℕ
u8 n = n % 2 ^ 8

abbrev pub u16 : ℕ → ℕ
u16 n = n % 2 ^ 16

abbrev pub u32 : ℕ → ℕ
u32 n = n % 2 ^ 32

abbrev pub u64 : ℕ → ℕ
u64 n = n % 2 ^ 64

-- `a - b` on uint16 and uint32 values.
abbrev pub sub16 : ℕ → ℕ → ℕ
sub16 a b = (a + 2 ^ 16 - b) % 2 ^ 16

abbrev pub sub32 : ℕ → ℕ → ℕ
sub32 a b = (a + 2 ^ 32 - b) % 2 ^ 32

abbrev pub IsByte : ℕ → Type 0
IsByte b = b < 256

abbrev pub IsBytes : List ℕ → Type 0
IsBytes = All IsByte

-- The byte at an index that the code has checked.
abbrev pub byte_at : List ℕ → ℕ → ℕ
byte_at bs i = get_or bs i 0

-- `b & mask != 0`
abbrev pub has_bit : ℕ → ℕ → Bool
has_bit b mask = not (bit_and b mask == 0)

-- `binary.BigEndian.Uint16(bs[i:i+2])` and `Uint32(bs[i:i+4])`
abbrev pub be16 : List ℕ → ℕ → ℕ
be16 bs i = byte_at bs i * 2 ^ 8 + byte_at bs (i + 1)

abbrev pub be32 : List ℕ → ℕ → ℕ
be32 bs i = be16 bs i * 2 ^ 16 + be16 bs (i + 2)

-- The same in little-endian order.
abbrev pub le16 : List ℕ → ℕ → ℕ
le16 bs i = byte_at bs (i + 1) * 2 ^ 8 + byte_at bs i

abbrev pub le32 : List ℕ → ℕ → ℕ
le32 bs i = le16 bs (i + 2) * 2 ^ 16 + le16 bs i

-- Every byte that is read is below 256, past the end too.
pub byte_at-IsByte : (bs : List ℕ) (i : ℕ) → IsBytes bs → byte_at bs i < 256
byte_at-IsByte [] i h = omega arith
byte_at-IsByte (b ∷ bs) Prim.Native.Nat.zero h = h.0
byte_at-IsByte (b ∷ bs) (Prim.Native.Nat.suc i) h = byte_at-IsByte bs i h.1

pub get_elem?-byte_at : (bs : List ℕ) (i : ℕ) → i < length bs → get_elem? bs i ≡ some (byte_at bs i)
get_elem?-byte_at [] i h = absurd (omega arith)
get_elem?-byte_at (b ∷ bs) Prim.Native.Nat.zero h = refl
get_elem?-byte_at (b ∷ bs) (Prim.Native.Nat.suc i) h = get_elem?-byte_at bs i (omega arith)

-- `bs[lo:hi]`, which panics out of range.
unfoldable pub slice? : ℕ → ℕ → List ℕ → Option (List ℕ)
slice? lo hi bs = if leb lo hi && leb hi (length bs) then some (slice lo hi bs) else none

pub slice?-slice :
    (lo hi : ℕ) (bs : List ℕ) → lo ≤ hi → hi ≤ length bs → slice? lo hi bs ≡ some (slice lo hi bs)
unfolding slice?
slice?-slice lo hi bs p q = rw (le→leb lo hi p, le→leb hi (length bs) q)

-- `binary.BigEndian.Uint16(bs[i:i+2])` and `Uint32(bs[i:i+4])`, which panic out of range.
unfoldable pub be16? : List ℕ → ℕ → Option ℕ
be16? bs i = if leb (i + 2) (length bs) then some (be16 bs i) else none

unfoldable pub be32? : List ℕ → ℕ → Option ℕ
be32? bs i = if leb (i + 4) (length bs) then some (be32 bs i) else none

pub be16?-be16 : (bs : List ℕ) (i : ℕ) → i + 2 ≤ length bs → be16? bs i ≡ some (be16 bs i)
unfolding be16?
be16?-be16 bs i h = rw (le→leb (i + 2) (length bs) h)

pub be32?-be32 : (bs : List ℕ) (i : ℕ) → i + 4 ≤ length bs → be32? bs i ≡ some (be32 bs i)
unfolding be32?
be32?-be32 bs i h = rw (le→leb (i + 4) (length bs) h)

unfoldable pub le16? : List ℕ → ℕ → Option ℕ
le16? bs i = if leb (i + 2) (length bs) then some (le16 bs i) else none

unfoldable pub le32? : List ℕ → ℕ → Option ℕ
le32? bs i = if leb (i + 4) (length bs) then some (le32 bs i) else none

pub le16?-le16 : (bs : List ℕ) (i : ℕ) → i + 2 ≤ length bs → le16? bs i ≡ some (le16 bs i)
unfolding le16?
le16?-le16 bs i h = rw (le→leb (i + 2) (length bs) h)

pub le32?-le32 : (bs : List ℕ) (i : ℕ) → i + 4 ≤ length bs → le32? bs i ≡ some (le32 bs i)
unfolding le32?
le32?-le32 bs i h = rw (le→leb (i + 4) (length bs) h)
