-- ===== src/Examples/Ring.antt =====
-- A ring on Linux with blocks of two frames.
use sip_exporter.Prelude.{
  ℕ, ◌≡◌, refl, Bool, true, false, List, [], ◌∷◌, ◌++◌, Option, none, some, replicate, arith,
  byte_at, ◌==◌, slice?, le32?, le16?,
}
use sip_exporter.Ring.{
  Uapi, RingError, PacketRingGeometry, PacketRing, Request, Block, Frame, FrameIterator, frames,
  next,
}
use sip_exporter.Ring.Frames.{IsUapi, Reads, start_of, end_of, header_of, next-Reads}
use sip_exporter.Ring.Runs.{enqueue_block}
use sip_exporter.Ring.Runs.Walks.{Walks}
use sip_exporter.Ring.Runs.Grouping.{Run, joined, Classed, Alternate}
use sip_exporter.Ring.Runs.Whole.{enqueued, feed, enqueue_block_offers}

abbrev linux : Uapi
linux = record {
  tpacket3_hdr = 48;
  alignment = 16;
  sockaddr_linklayer = 20;
  status_user = 1;
  big_endian = false;
}

abbrev frame_bytes : ℕ → ℕ → List ℕ
frame_bytes next_offset a =
    (next_offset ∷ 0 ∷ 0 ∷ 0 ∷ [])
    ++ (replicate 8 0
        ++ ((4 ∷ 0 ∷ 0 ∷ 0 ∷ [])
            ++ (replicate 8 0 ++ ((68 ∷ 0 ∷ []) ++ (replicate 42 0 ++ (a ∷ 1 ∷ 2 ∷ 3 ∷ []))))))

abbrev memory : List ℕ
memory =
    replicate 8 0
    ++ ((1 ∷ 0 ∷ 0 ∷ 0 ∷ 2 ∷ 0 ∷ 0 ∷ 0 ∷ 48 ∷ 0 ∷ 0 ∷ 0 ∷ [])
        ++ (replicate 28 0 ++ (frame_bytes 72 7 ++ frame_bytes 0 9)))

abbrev ring : PacketRing
ring = record { block_size = 192; block_count = 1; memory = memory }

abbrev block : Block
block = record { bytes = memory; packet_count = 2; first_packet_offset = 48 }

linux-IsUapi : IsUapi linux
linux-IsUapi = omega arith

abbrev first : Frame
first = record { bytes = 7 ∷ 1 ∷ 2 ∷ 3 ∷ []; seconds = 0; nanoseconds = 0; pkttype = 0 }

abbrev second_header : FrameIterator
second_header = record { block = block; index = 1; offset = 120 }

next-Reads_example :
    Reads linux
      (frames block)
      second_header
      first
      (start_of linux (frames block) (header_of linux (frames block)))
      (end_of linux (frames block) (header_of linux (frames block)))
unfolding next slice? le32? le16?
next-Reads_example =
    next-Reads linux (frames block) second_header first linux-IsUapi (omega arith) refl

-- A queue that takes one run and logs what it took.
abbrev take_one : List Run → List Frame → Bool → List Run × Bool
take_one [] fs sip = ((sip, fs) ∷ [], true)
take_one (x ∷ xs) fs sip = (x ∷ xs, false)

abbrev odd_first : Frame → Bool
odd_first f = byte_at f.bytes 0 == 7

one_run :
    enqueue_block linux odd_first take_one block []
    ≡ some (record { queue = (true, first ∷ []) ∷ []; running = false; error = none })
unfolding enqueue_block next slice? le32? le16?
one_run = refl

enqueue_block_offers_example :
    (fs : List Frame) × (error : Option RingError) × (rs : List Run) × Walks linux
      (frames block)
      fs
      error
    × (joined rs ≡ fs)
    × Classed odd_first rs
    × Alternate odd_first rs
    × (enqueue_block linux odd_first take_one block []
        ≡ some (enqueued linux odd_first take_one (feed linux odd_first take_one [] rs) error))
enqueue_block_offers_example =
    enqueue_block_offers linux odd_first take_one block [] linux-IsUapi (omega arith)

abbrev geometry : PacketRingGeometry
geometry = record {
  block_size = 131_072;
  block_count = 2;
  frame_size = 2048;
  retire_timeout_ms = 60;
}

abbrev asked : Request
asked = record {
  block_size = 131_072;
  block_nr = 2;
  frame_size = 2048;
  frame_nr = 128;
  retire_blk_tov = 60;
}

abbrev mapped : PacketRing
mapped = record { block_size = 131_072; block_count = 2; memory = replicate 262_144 0 }
