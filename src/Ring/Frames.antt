-- ===== src/Ring/Frames.antt =====
-- The iterator over the frames of a block.
use sip_exporter.Prelude.{
  ℕ, ◌+◌, ◌^◌, ◌≤◌, ◌<◌, ◌≡◌, List, Option, none, some, Result, ok, arith, length, slice,
  length-slice, slice?-slice, get_elem?-byte_at, byte_at, if◌then◌else◌, ltb, leb, ◌&&◌, u32,
}
use sip_exporter.Rtcp.Total.{Returns}
use sip_exporter.Ring.{
  Uapi, RingError, Block, Frame, FrameIterator, header_len, packet_type_off, invalid, advance,
  bad_next, read_frame, next, invalid_data_offset, truncated_data, invalid_next_offset,
  truncated_metadata,
}
use sip_exporter.Ring.Decode.{word16, word32, native16-word16, native32-word32}

-- What the code relies on in the sizes of the kernel interface: the header of a frame holds the
-- fields that are read and the packet type behind them.
pub record IsUapi (u : Uapi) : Type 0 where
  pub fields_fit : 26 ≤ header_len u
  pub type_fits : packet_type_off u < header_len u

abbrev pub start_of : Uapi → FrameIterator → List ℕ → ℕ
start_of u i header = i.offset + word16 u header 24

abbrev pub end_of : Uapi → FrameIterator → List ℕ → ℕ
end_of u i header = start_of u i header + word32 u header 12

abbrev pub frame_of : Uapi → FrameIterator → List ℕ → Frame
frame_of u i header = record {
  bytes = slice (start_of u i header) (end_of u i header) i.block.bytes;
  seconds = word32 u header 4;
  nanoseconds = word32 u header 8;
  pkttype = byte_at header (packet_type_off u);
}

-- `read_frame` with no read that could fail.
abbrev pub read_outcome :
    Uapi → FrameIterator → List ℕ → FrameIterator × Result RingError (Option Frame)
read_outcome u i header =
    let next_offset = word32 u header 0 in
    if ltb (word16 u header 24) (header_len u)
    then invalid i invalid_data_offset
    else if ltb (length i.block.bytes) (end_of u i header)
    then invalid i truncated_data
    else if ltb (u32 (i.index + 1)) i.block.packet_count
        && bad_next u i.block next_offset (i.offset + next_offset) (end_of u i header)
    then invalid i invalid_next_offset
    else (advance i next_offset, ok (some (frame_of u i header)))

read_frame-outcome :
    (u : Uapi) (i : FrameIterator) (header : List ℕ)
    → IsUapi u
    → length header ≡ header_len u
    → read_frame u i header ≡ some (read_outcome u i header)
unfolding read_frame
read_frame-outcome u i header w n = ground (
  arith,
  native32-word32 u header 0,
  native32-word32 u header 12,
  native16-word16 u header 24,
  native32-word32 u header 4,
  native32-word32 u header 8,
  get_elem?-byte_at header (packet_type_off u),
  slice?-slice (start_of u i header) (end_of u i header) i.block.bytes,
)

abbrev pub header_of : Uapi → FrameIterator → List ℕ
header_of u i = slice i.offset (i.offset + header_len u) i.block.bytes

abbrev pub next_outcome : Uapi → FrameIterator → FrameIterator × Result RingError (Option Frame)
next_outcome u i =
    if leb i.block.packet_count i.index
    then (i, ok none)
    else if ltb (length i.block.bytes) (i.offset + header_len u)
    then invalid i truncated_metadata
    else read_outcome u i (header_of u i)

pub next-outcome : (u : Uapi) (i : FrameIterator) → IsUapi u → next u i ≡ some (next_outcome u i)
unfolding next
next-outcome u i w = ground (
  arith,
  slice?-slice i.offset (i.offset + header_len u) i.block.bytes,
  length-slice i.offset (i.offset + header_len u) i.block.bytes,
  read_frame-outcome u i (header_of u i) w,
)

-- No step of the iterator reads out of range, whatever the block holds.
pub next-Returns : (u : Uapi) (i : FrameIterator) → IsUapi u → Returns (next u i)
next-Returns u i w = (next_outcome u i, next-outcome u i w)

-- Offsets and counts are uint32 values.
pub record Fits (b : Block) : Type 0 where
  pub count_fits : b.packet_count < 2 ^ 32
  pub size_fits : length b.bytes < 2 ^ 32

-- A frame that was read lies in the block behind its own header, the iterator moved on by one, and
-- the header of the next frame lies in the block behind the payload of this one.
pub record Reads (u : Uapi) (i i' : FrameIterator) (f : Frame) (lo hi : ℕ) : Type 0 where
  pub payload : f.bytes ≡ slice lo hi i.block.bytes
  pub after_header : i.offset + header_len u ≤ lo
  pub ordered : lo ≤ hi
  pub in_block : hi ≤ length i.block.bytes
  pub same_block : i'.block ≡ i.block
  pub was_left : i.index < i.block.packet_count
  pub one_less : i'.index ≡ i.index + 1
  pub next_behind : i'.index < i.block.packet_count → hi ≤ i'.offset
  pub next_in_block :
      i'.index < i.block.packet_count → i'.offset + header_len u ≤ length i.block.bytes

read_outcome-Reads :
    (u : Uapi) (i i' : FrameIterator) (header : List ℕ) (f : Frame)
    → Fits i.block
    → i.index < i.block.packet_count
    → read_outcome u i header ≡ (i', ok (some f))
    → Reads u i i' f (start_of u i header) (end_of u i header)
unfolding advance bad_next
read_outcome-Reads u i i' header f v left e = ground arith

-- Every frame that the iterator gives lies in the block behind its own header, and the header of
-- the frame after it lies in the block behind its payload.
pub next-Reads :
    (u : Uapi) (i i' : FrameIterator) (f : Frame)
    → IsUapi u
    → Fits i.block
    → next u i ≡ some (i', ok (some f))
    → Reads u i i' f (start_of u i (header_of u i)) (end_of u i (header_of u i))
next-Reads u i i' f w v e =
    ground (arith, next-outcome u i w, read_outcome-Reads u i i' (header_of u i) f v)
