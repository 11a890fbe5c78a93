-- ===== src/Ring/Decode.antt =====
-- Which blocks `decodeBlock` accepts, and the requests that make it succeed.
use sip_exporter.Prelude.{
  ℕ, ◌+◌, ◌-◌, ◌*◌, ◌/◌, ◌%◌, ◌≤◌, ◌<◌, ◌≡◌, ◌≢◌, inl, inr, refl, List, Option, none, some, Result,
  ok, err, arith, length, slice, length-slice, slice?-slice, be16, be32, le16, le32, be16?-be16,
  be32?-be32, le16?-le16, le32?-le32, if◌then◌else◌, Bool-cases, false, ltb, ◌==◌, ◌||◌, bit_and,
  tests,
}
use native.Mathlib.Nat.{div-mul-le_self, mul-le-mul_right}
use sip_exporter.Rtcp.Total.{Returns}
use sip_exporter.Ring.{
  Uapi, PacketRing, RingError, Block, block_header_len, block_status_off, header_len, native16,
  native32, decode_counts, decode_block, invalid_geometry, truncated_block,
}

abbrev pub word16 : Uapi → List ℕ → ℕ → ℕ
word16 u bs i = if u.big_endian then be16 bs i else le16 bs i

abbrev pub word32 : Uapi → List ℕ → ℕ → ℕ
word32 u bs i = if u.big_endian then be32 bs i else le32 bs i

pub native16-word16 :
    (u : Uapi) (bs : List ℕ) (i : ℕ) → i + 2 ≤ length bs → native16 u bs i ≡ some (word16 u bs i)
native16-word16 u bs i h = ground (arith, be16?-be16 bs i h, le16?-le16 bs i h)

pub native32-word32 :
    (u : Uapi) (bs : List ℕ) (i : ℕ) → i + 4 ≤ length bs → native32 u bs i ≡ some (word32 u bs i)
native32-word32 u bs i h = ground (arith, be32?-be32 bs i h, le32?-le32 bs i h)

-- The packets of a block start after its header, and there is room for the header of each.
pub record IsBlock (u : Uapi) (b : Block) : Type 0 where
  pub first_after_header : 0 < b.packet_count → block_header_len ≤ b.first_packet_offset
  pub room_first : 0 < b.packet_count → b.first_packet_offset + header_len u ≤ length b.bytes
  pub room_all :
      0 < b.packet_count → b.packet_count * header_len u ≤ length b.bytes - b.first_packet_offset

mul-le_div : (n a d : ℕ) → n ≤ a / d → n * d ≤ a
mul-le_div n a d h = omega (arith, div-mul-le_self a d, mul-le-mul_right d h)

decode_counts-IsBlock :
    (u : Uapi) (bytes : List ℕ) (count first : ℕ) (b : Block)
    → decode_counts u bytes count first ≡ ok (some b)
    → IsBlock u b × (b.bytes ≡ bytes)
unfolding decode_counts
decode_counts-IsBlock u bytes count first b e =
    ground (arith, mul-le_div count (length bytes - first) (header_len u))

-- The bytes of a block of the ring.
abbrev pub block_bytes : PacketRing → ℕ → List ℕ
block_bytes r index =
    let start = index % r.block_count * r.block_size in slice start (start + r.block_size) r.memory

-- What the status and the counts of a block that lies in memory give.
abbrev pub decoded : Uapi → List ℕ → Result RingError (Option Block)
decoded u block =
    if bit_and (word32 u block block_status_off) u.status_user == 0
    then ok none
    else decode_counts u block (word32 u block 12) (word32 u block 16)

pub decode_block-decoded :
    (u : Uapi) (r : PacketRing) (index : ℕ)
    → block_header_len ≤ r.block_size
    → r.block_count ≢ 0
    → index % r.block_count * r.block_size + r.block_size ≤ length r.memory
    → decode_block u r index ≡ some (decoded u (block_bytes r index))
unfolding decode_block
decode_block-decoded u r index size count room =
    let start = index % r.block_count * r.block_size in
    let long : block_header_len ≤ length (block_bytes r index) =
      omega (arith, length-slice start (start + r.block_size) r.memory) in
    ground (
      arith,
      slice?-slice start (start + r.block_size) r.memory,
      native32-word32 u (block_bytes r index) 8,
      native32-word32 u (block_bytes r index) 12,
      native32-word32 u (block_bytes r index) 16,
    )

-- What a call gives, with no read that could fail.
abbrev pub outcome : Uapi → PacketRing → ℕ → Result RingError (Option Block)
outcome u r index =
    if ltb r.block_size block_header_len || r.block_count == 0
    then err invalid_geometry
    else if ltb (length r.memory) (index % r.block_count * r.block_size + r.block_size)
    then err truncated_block
    else decoded u (block_bytes r index)

good_geometry :
    (size count : ℕ)
    → (ltb size block_header_len || count == 0) ≡ false
    → (block_header_len ≤ size) × (count ≢ 0)
good_geometry size count h = ground arith

pub decode_block-outcome :
    (u : Uapi) (r : PacketRing) (index : ℕ) → decode_block u r index ≡ some (outcome u r index)
decode_block-outcome u r index =
    elim (Bool-cases (ltb r.block_size block_header_len || r.block_count == 0)) [
      | inl bad ↦ unfold decode_block in rw bad refl
      | inr good ↦
          elim (Bool-cases
            (ltb (length r.memory) (index % r.block_count * r.block_size + r.block_size))) [
              | inl cut ↦ unfold decode_block in rw (good, cut) refl
              | inr room ↦
                  let (size, count) = good_geometry r.block_size r.block_count good in
                  rw (decode_block-decoded u r index size count (omega tests), good, room) refl
            ]
    ]

-- On any ring and for any index `decodeBlock` returns: no read of it is out of range.
pub decode_block-Returns :
    (u : Uapi) (r : PacketRing) (index : ℕ) → Returns (decode_block u r index)
decode_block-Returns u r index = (outcome u r index, decode_block-outcome u r index)

outcome-IsBlock :
    (u : Uapi) (r : PacketRing) (index : ℕ) (b : Block)
    → outcome u r index ≡ ok (some b)
    → IsBlock u b × (b.bytes ≡ block_bytes r index)
outcome-IsBlock u r index b e =
    let bytes = block_bytes r index in
    ground (arith, decode_counts-IsBlock u bytes (word32 u bytes 12) (word32 u bytes 16) b)

-- A block that is accepted has the bytes of the addressed one, its first packet lies after the
-- header of the block, and there is room for the header of every packet that it promises.
pub decode_block-IsBlock :
    (u : Uapi) (r : PacketRing) (index : ℕ) (b : Block)
    → decode_block u r index ≡ some (ok (some b))
    → IsBlock u b × (b.bytes ≡ block_bytes r index)
decode_block-IsBlock u r index b e =
    outcome-IsBlock u r index b (cc (e, decode_block-outcome u r index))
