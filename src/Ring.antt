-- ===== src/Ring.antt =====
-- internal/exporter/packet_ring.go: the ring of blocks that the kernel fills with packets. A `none`
-- is a panic. The sizes and flags that golang.org/x/sys/unix declares are a parameter.
pub mod Decode
pub mod Frames
pub mod Geometry
pub mod Runs
pub mod Queue
use sip_exporter.Prelude.{
  ℕ, ◌+◌, ◌-◌, ◌*◌, ◌/◌, ◌%◌, Bool, not, ◌&&◌, ◌||◌, List, Option, none, some, Result, ok, err, ltb,
  leb, ◌==◌, if◌then◌else◌, length, get_elem?, slice?, bit_and, u32, be16?, be32?, le16?, le32?,
}
use sip_exporter.Prelude.Partial.{◌>>=◌}

-- `SizeofTpacket3Hdr`, `TPACKET_ALIGNMENT`, `SizeofSockaddrLinklayer`, `TP_STATUS_USER`, and whether
-- `binary.NativeEndian` is the big-endian order.
pub record Uapi : Type 0 where
  pub tpacket3_hdr : ℕ
  pub alignment : ℕ
  pub sockaddr_linklayer : ℕ
  pub status_user : ℕ
  pub big_endian : Bool

abbrev pub block_header_len : ℕ
block_header_len = 48

abbrev pub block_status_off : ℕ
block_status_off = 8

abbrev pub frame_alignment : ℕ
frame_alignment = 8

abbrev pub max_packet_ring_bytes : ℕ
max_packet_ring_bytes = 8 * 1024 * 1024

abbrev pub read_buf_size : ℕ
read_buf_size = 65536

-- `tpacketV3PacketTypeOff` and `tpacketV3HeaderLen`. The alignment is a power of two.
abbrev pub packet_type_off : Uapi → ℕ
packet_type_off u = u.tpacket3_hdr + 10

abbrev pub header_len : Uapi → ℕ
header_len u = (u.tpacket3_hdr + u.alignment - 1) / u.alignment * u.alignment + u.sockaddr_linklayer

pub record PacketRingGeometry : Type 0 where
  pub block_size : ℕ
  pub block_count : ℕ
  pub frame_size : ℕ
  pub retire_timeout_ms : ℕ

-- `unix.TpacketReq3`, the fields that are set.
pub record Request : Type 0 where
  pub block_size : ℕ
  pub block_nr : ℕ
  pub frame_size : ℕ
  pub frame_nr : ℕ
  pub retire_blk_tov : ℕ

pub data RingError : Type 0 where
  invalid_request invalid_geometry truncated_block invalid_first_offset invalid_packet_count :
      RingError
  truncated_metadata invalid_data_offset truncated_data invalid_next_offset : RingError

abbrev pub request_of : PacketRingGeometry → Request
request_of g = record {
  block_size = g.block_size;
  block_nr = g.block_count;
  frame_size = g.frame_size;
  frame_nr = u32 (g.block_size / g.frame_size * g.block_count);
  retire_blk_tov = g.retire_timeout_ms;
}

unfoldable pub request : Uapi → PacketRingGeometry → ℕ → Result RingError Request
request u g page_size =
    if page_size == 0 || (g.block_size == 0 || not (g.block_size % page_size == 0))
    then err invalid_request
    else if leb g.frame_size (header_len u) || not (g.frame_size % u.alignment == 0)
    then err invalid_request
    else if not (g.block_size % g.frame_size == 0) || g.block_count == 0
    then err invalid_request
    else if g.retire_timeout_ms == 0
        || ltb g.block_size (read_buf_size + block_header_len + header_len u)
    then err invalid_request
    else if ltb max_packet_ring_bytes (g.block_size * g.block_count)
    then err invalid_request
    else ok (request_of g)

-- `binary.NativeEndian.Uint16` and `Uint32` of `bs[i:]`, cut to their width.
abbrev pub native16 : Uapi → List ℕ → ℕ → Option ℕ
native16 u bs i = if u.big_endian then be16? bs i else le16? bs i

abbrev pub native32 : Uapi → List ℕ → ℕ → Option ℕ
native32 u bs i = if u.big_endian then be32? bs i else le32? bs i

-- The fields of `packetRing` that decoding reads.
pub record PacketRing : Type 0 where
  pub block_size : ℕ
  pub block_count : ℕ
  pub memory : List ℕ

pub record Block : Type 0 where
  pub bytes : List ℕ
  pub packet_count : ℕ
  pub first_packet_offset : ℕ

-- The checks on the counts of a block that the kernel has handed over.
unfoldable pub decode_counts : Uapi → List ℕ → ℕ → ℕ → Result RingError (Option Block)
decode_counts u block packet_count first_packet_offset =
    if packet_count == 0
    then ok (some (record { bytes = block; packet_count = 0; first_packet_offset = 0 }))
    else if ltb first_packet_offset block_header_len
        || ltb (length block) (first_packet_offset + header_len u)
    then err invalid_first_offset
    else if ltb ((length block - first_packet_offset) / header_len u) packet_count
    then err invalid_packet_count
    else ok (
        some (record {
          bytes = block;
          packet_count = packet_count;
          first_packet_offset = first_packet_offset;
        }))

-- A block that the kernel still owns is `ok none`.
unfoldable pub decode_block : Uapi → PacketRing → ℕ → Option (Result RingError (Option Block))
unfolding decode_counts
decode_block u r index =
    let start = index % r.block_count * r.block_size in
    if ltb r.block_size block_header_len || r.block_count == 0
    then some (err invalid_geometry)
    else if ltb (length r.memory) (start + r.block_size)
    then some (err truncated_block)
    else do
      block ← slice? start (start + r.block_size) r.memory
      status ← native32 u block block_status_off
      if bit_and status u.status_user == 0 then some (ok none) else do
        packet_count ← native32 u block 12
        first_packet_offset ← native32 u block 16
        some (decode_counts u block packet_count first_packet_offset)

pub record Frame : Type 0 where
  pub bytes : List ℕ
  pub seconds : ℕ
  pub nanoseconds : ℕ
  pub pkttype : ℕ

pub record FrameIterator : Type 0 where
  pub block : Block
  pub index : ℕ
  pub offset : ℕ

abbrev pub frames : Block → FrameIterator
frames b = record { block = b; index = 0; offset = b.first_packet_offset }

-- `invalid`: the iterator ends.
abbrev pub invalid : FrameIterator → RingError → FrameIterator × Result RingError (Option Frame)
invalid i e = (record i { index = i.block.packet_count }, err e)

-- `nextOffset % alignment != 0 || nextStart < payloadEnd || nextStart + headerLen > len(bytes)`
unfoldable pub bad_next : Uapi → Block → ℕ → ℕ → ℕ → Bool
bad_next u b next_offset next_start payload_end =
    not (next_offset % frame_alignment == 0)
    || (ltb next_start payload_end || ltb (length b.bytes) (next_start + header_len u))

-- `i.offset += nextOffset` where a frame follows, and `i.index++`, on uint32 values.
unfoldable pub advance : FrameIterator → ℕ → FrameIterator
advance i next_offset = record i {
  index = u32 (i.index + 1);
  offset =
      if ltb (u32 (i.index + 1)) i.block.packet_count
      then u32 (i.offset + next_offset)
      else i.offset;
}

unfoldable pub read_frame :
    Uapi → FrameIterator → List ℕ → Option (FrameIterator × Result RingError (Option Frame))
unfolding bad_next advance
read_frame u i header = do
  next_offset ← native32 u header 0
  snaplen ← native32 u header 12
  mac_offset ← native16 u header 24
  let payload_start = i.offset + mac_offset
  let payload_end = payload_start + snaplen
  if ltb mac_offset (header_len u)
      then some (invalid i invalid_data_offset)
      else if ltb (length i.block.bytes) payload_end
      then some (invalid i truncated_data)
      else if ltb (u32 (i.index + 1)) i.block.packet_count
          && bad_next u i.block next_offset (i.offset + next_offset) payload_end
      then some (invalid i invalid_next_offset)
      else do
        seconds ← native32 u header 4
        nanoseconds ← native32 u header 8
        pkttype ← get_elem? header (packet_type_off u)
        bytes ← slice? payload_start payload_end i.block.bytes
        some (
          advance i next_offset,
          ok (
              some (record {
                bytes = bytes;
                seconds = seconds;
                nanoseconds = nanoseconds;
                pkttype = pkttype;
              })),
        )

unfoldable pub next :
    Uapi → FrameIterator → Option (FrameIterator × Result RingError (Option Frame))
unfolding read_frame
next u i =
    if leb i.block.packet_count i.index
    then some (i, ok none)
    else if ltb (length i.block.bytes) (i.offset + header_len u)
    then some (invalid i truncated_metadata)
    else do header ← slice? i.offset (i.offset + header_len u) i.block.bytes; read_frame u i header
