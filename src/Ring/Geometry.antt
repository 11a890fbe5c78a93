-- ===== src/Ring/Geometry.antt =====
-- What `request` asks of the kernel, and the ring that it makes.
use native.Mathlib.Nat.{div-mul-le_self, mul-le-mul_right, mul-le-mul_left, div-add-mod, mod-lt}
use sip_exporter.Prelude.{
  ℕ, ◌+◌, ◌*◌, ◌/◌, ◌%◌, ◌^◌, ◌≤◌, ◌<◌, ◌≡◌, ok, arith, length, u32, some, subst,
}
use sip_exporter.Ring.{
  Uapi, PacketRingGeometry, PacketRing, Request, request, request_of, block_header_len, header_len,
  max_packet_ring_bytes, read_buf_size, decode_block,
}
use sip_exporter.Ring.Decode.{decode_block-decoded, decoded, block_bytes}

-- The fields are uint32 values.
pub record IsGeometry (g : PacketRingGeometry) : Type 0 where
  pub block_fits : g.block_size < 2 ^ 32
  pub count_fits : g.block_count < 2 ^ 32

-- What an accepted geometry satisfies.
pub record Sound (u : Uapi) (g : PacketRingGeometry) (page_size : ℕ) : Type 0 where
  pub whole_pages : g.block_size % page_size ≡ 0
  pub whole_frames : g.block_size % g.frame_size ≡ 0
  pub frame_room : header_len u < g.frame_size
  pub some_block : 0 < g.block_count
  pub packet_room : read_buf_size + block_header_len + header_len u ≤ g.block_size
  pub bounded : g.block_size * g.block_count ≤ max_packet_ring_bytes

request-Sound :
    (u : Uapi) (g : PacketRingGeometry) (page_size : ℕ) (q : Request)
    → request u g page_size ≡ ok q
    → Sound u g page_size × (q ≡ request_of g)
unfolding request
request-Sound u g page_size q e = ground arith

whole : (a d : ℕ) → a % d ≡ 0 → a / d * d ≡ a
whole a d h = omega (arith, div-add-mod a d)

shuffle : (k c f : ℕ) → k * c * f ≡ k * f * c
shuffle k c f = omega arith

frames_fit : (size frame count : ℕ) → size % frame ≡ 0 → size / frame * count * frame ≡ size * count
frames_fit size frame count h = cc (shuffle (size / frame) count frame, whole size frame h)

fewer_frames : (size frame count : ℕ) → 0 < frame → size / frame * count ≤ size * count
fewer_frames size frame count h =
    mul-le-mul_right count
      (omega (arith, div-mul-le_self size frame, mul-le-mul_left (size / frame) h))

no_overflow :
    (size frame count : ℕ)
    → 0 < frame
    → size % frame ≡ 0
    → size * count ≤ max_packet_ring_bytes
    → u32 (size / frame * count) * frame ≡ size * count
no_overflow size frame count pos whole_frames bounded =
    let fewer = fewer_frames size frame count pos in
    let small : u32 (size / frame * count) ≡ size / frame * count = omega (arith, fewer) in
    rw small (frames_fit size frame count whole_frames)

-- The number of frames that is asked for does not overflow: the frames fill the blocks exactly, and
-- these take no more than the cap.
pub request-frame_nr :
    (u : Uapi) (g : PacketRingGeometry) (page_size : ℕ) (q : Request)
    → request u g page_size ≡ ok q
    → (q.frame_nr * q.frame_size ≡ q.block_size * q.block_nr)
      × (q.block_size * q.block_nr ≤ max_packet_ring_bytes)
request-frame_nr u g page_size q e =
    let (v, same) = request-Sound u g page_size q e in
    rw same (
      no_overflow g.block_size g.frame_size g.block_count (omega (arith, v.frame_room))
          v.whole_frames v.bounded,
      v.bounded,
    )

block_room : (index size count : ℕ) → 0 < count → index % count * size + size ≤ size * count
block_room index size count h = omega (arith, mul-le-mul_right size (mod-lt index h))

-- A ring whose memory has the size that an accepted request asks for: `decodeBlock` reaches the
-- block of every index, and judges it by its bytes alone.
pub decode_block_requested :
    (u : Uapi) (g : PacketRingGeometry) (page_size : ℕ) (q : Request) (r : PacketRing) (index : ℕ)
    → request u g page_size ≡ ok q
    → r.block_size ≡ q.block_size
    → r.block_count ≡ q.block_nr
    → length r.memory ≡ q.block_size * q.block_nr
    → decode_block u r index ≡ some (decoded u (block_bytes r index))
decode_block_requested u g page_size q r index e size count memory =
    let (v, same) = request-Sound u g page_size q e in
    let positive : 0 < r.block_count = rw (count, same) v.some_block in
    let room = block_room index r.block_size r.block_count positive in
    decode_block-decoded u r index (rw (size, same) (omega (arith, v.packet_room)))
      (omega (arith, positive))
      (subst (λ n. index % r.block_count * r.block_size + r.block_size ≤ n)
        (cc (memory, size, count)) room)
