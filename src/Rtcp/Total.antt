-- ===== src/Rtcp/Total.antt =====
-- Where the parser of RTCP compounds returns a value.
use sip_exporter.Prelude.{
  ℕ, zero, suc, ◌+◌, ◌*◌, ◌≤◌, ◌<◌, ◌≡◌, refl, Bool, List, [], ◌∷◌, ◌++◌, Option, none, some, ok,
  err, arith, length, slice, slice?-slice, be16, be32, be16?-be16, be32?-be32, get_elem?-byte_at,
  byte_at, length-slice, bit_and, lt→ltb, le→ltb, ltb, leb, le→leb, tests, Bool-cases, inl, inr,
  ◌^◌, ◌/◌, ◌⊎◌, not, ◌==◌, ◌&&◌, true, false,
}
use sip_exporter.Rtcp.{
  RtcpError, ReportBlock, Report, block_start, no_report, truncated, invalid_rtcp, sign_extend,
  parse_report_block, parse_blocks, not_rtcp, pt_sender_report, pt_receiver_report, parse_report,
  parse_compound_packet, compound_packet_len, parse_loop, parse, collect, first_error,
}

-- A value is returned: no panic, and the fuel is enough.
abbrev pub Returns {ℓ} : {A : Type ℓ} → Option A → Type ℓ
Returns {A = A} m = (a : A) × (m ≡ some a)

-- What a block of 24 bytes holds.
abbrev pub block_of : List ℕ → ReportBlock
block_of b = record {
  ssrc = be32 b 0;
  fraction_lost = byte_at b 4;
  cumulative_lost = sign_extend (byte_at b 5 * 2 ^ 16 + byte_at b 6 * 2 ^ 8 + byte_at b 7);
  jitter = be32 b 12;
  lsr = be32 b 16;
  dlsr = be32 b 20;
}

pub parse_report_block-block_of :
    (b : List ℕ) → 24 ≤ length b → parse_report_block b ≡ some (block_of b)
unfolding parse_report_block
parse_report_block-block_of b h = rw (
  get_elem?-byte_at b 5 (omega arith),
  get_elem?-byte_at b 6 (omega arith),
  get_elem?-byte_at b 7 (omega arith),
  be32?-be32 b 0 (omega arith),
  get_elem?-byte_at b 4 (omega arith),
  be32?-be32 b 12 (omega arith),
  be32?-be32 b 16 (omega arith),
  be32?-be32 b 20 (omega arith),
)

-- One round that finds room for its block.
pub parse_blocks-suc :
    (rc : ℕ) (pkt : List ℕ) (off : ℕ) (blocks : List ReportBlock)
    → off + 24 ≤ length pkt
    → parse_blocks (suc rc) pkt off blocks
      ≡ parse_blocks rc pkt (off + 24) (blocks ++ (block_of (slice off (off + 24) pkt) ∷ []))
unfolding parse_blocks
parse_blocks-suc rc pkt off blocks h = rw (
  le→ltb (length pkt) (off + 24) h,
  slice?-slice off (off + 24) pkt (omega arith) h,
  parse_report_block-block_of (slice off (off + 24) pkt) room,
)
  where
    room : 24 ≤ length (slice off (off + 24) pkt)
    room = omega (arith, length-slice off (off + 24) pkt (omega arith) h)

parse_blocks-truncated :
    (rc : ℕ) (pkt : List ℕ) (off : ℕ) (blocks : List ReportBlock)
    → length pkt < off + 24
    → parse_blocks (suc rc) pkt off blocks ≡ some (blocks, some truncated)
unfolding parse_blocks
parse_blocks-truncated rc pkt off blocks h = rw (lt→ltb (length pkt) (off + 24) h)

parse_blocks-Returns :
    (rc : ℕ) (pkt : List ℕ) (off : ℕ) (blocks : List ReportBlock)
    → Returns (parse_blocks rc pkt off blocks)
parse_blocks-Returns zero pkt off blocks = ((blocks, none), unfold parse_blocks in refl)
parse_blocks-Returns (suc rc) pkt off blocks = elim (Bool-cases (ltb (length pkt) (off + 24))) [
  | inl short ↦ (_, parse_blocks-truncated rc pkt off blocks (omega tests))
  | inr room ↦
      rw (parse_blocks-suc rc pkt off blocks (omega tests))
        (parse_blocks-Returns rc pkt (off + 24) _)
]

parse_report-Returns : (pkt : List ℕ) (pt : ℕ) → 4 ≤ length pkt → Returns (parse_report pkt pt)
unfolding parse_report
parse_report-Returns pkt pt h =
    let ((blocks, error), found) =
      parse_blocks-Returns (bit_and (byte_at pkt 0) 0x1f) pkt (block_start pt) [] in
    elim (Bool-cases (ltb (length pkt) (block_start pt))) [
      | inl short ↦ ((no_report, some invalid_rtcp), ground (arith, get_elem?-byte_at pkt 0))
      | inr room ↦
          ((record { type = pt; blocks = blocks }, error), ground (arith, get_elem?-byte_at pkt 0))
    ]

parse_compound_packet-Returns :
    (pkt : List ℕ) → 4 ≤ length pkt → Returns (parse_compound_packet pkt)
unfolding parse_compound_packet
parse_compound_packet-Returns pkt h =
    let ((report, error), found) = parse_report-Returns pkt (byte_at pkt 1) h in
    elim (Bool-cases (is_report (byte_at pkt 1))) [
      | inl other ↦ ((no_report, false, none), ground (arith, get_elem?-byte_at pkt 1))
      | inr known ↦ ((report, true, error), ground (arith, get_elem?-byte_at pkt 1))
    ]
  where
    is_report : ℕ → Bool
    is_report pt = not (pt == pt_sender_report) && not (pt == pt_receiver_report)

-- The length of a sub-packet is a positive multiple of four that fits, or the compound is truncated.
pub compound_packet_len-cases :
    (payload : List ℕ) (off : ℕ)
    → (compound_packet_len payload off ≡ some (err truncated))
      ⊎ ((n : ℕ) × (compound_packet_len payload off ≡ some (ok n))
          × (n ≡ (be16 payload (off + 2) + 1) * 4)
          × (off + n ≤ length payload))
unfolding compound_packet_len
compound_packet_len-cases payload off =
    let n = (be16 payload (off + 2) + 1) * 4 in
    elim (Bool-cases (ltb (length payload) (off + 4))) [
      | inl short ↦ inl (rw short)
      | inr header ↦ elim (Bool-cases (ltb (length payload) (off + n))) [
        | inl cut ↦ inl (rw (header, be16?-be16 payload (off + 2) (omega tests), cut))
        | inr whole ↦
            inr
              (n, rw (header, be16?-be16 payload (off + 2) (omega tests), whole), refl, omega tests)
      ]
    ]

-- With as much fuel as there are bytes left the loop ends.
parse_loop-Returns :
    (fuel : ℕ) (payload : List ℕ) (off : ℕ) (reports : List Report) (first : Option RtcpError)
    → length payload ≤ off + fuel
    → Returns (parse_loop fuel payload off reports first)
unfolding parse_loop
parse_loop-Returns zero payload off reports first h =
    ((reports, first), rw (le→leb (length payload) off (omega arith)))
parse_loop-Returns (suc fuel) payload off reports first h =
    elim (Bool-cases (leb (length payload) off)) [
      | inl done ↦ ((reports, first), rw done)
      | inr more ↦ elim (compound_packet_len-cases payload off) [
        | inl cut ↦ ((reports, first_error first (some truncated)), rw (more, cut))
        | inr (n, fits, size, room) ↦
            let (parsed, read) =
              parse_compound_packet-Returns (slice off (off + n) payload)
                (omega (arith, length-slice off (off + n) payload)) in
            rw (more, fits, slice?-slice off (off + n) payload (omega arith) room, read)
              (parse_loop-Returns fuel payload (off + n) (collect reports parsed)
                (first_error first parsed.2) (omega arith))
      ]
    ]

-- Every payload is parsed to its end or to its first bad length: `Parse` never panics or loops.
pub parse-Returns : (payload : List ℕ) → Returns (parse payload)
unfolding parse
parse-Returns payload = elim (Bool-cases (ltb (length payload) 4)) [
  | inl short ↦ (([], some invalid_rtcp), rw short)
  | inr long ↦ elim (Bool-cases (byte_at payload 0 / 2 ^ 6 == 2)) [
    | inl rtcp ↦
        rw (long, get_elem?-byte_at payload 0 (omega tests), rtcp)
          (parse_loop-Returns (length payload) payload 0 [] none (omega arith))
    | inr other ↦ (([], some not_rtcp), rw (long, get_elem?-byte_at payload 0 (omega tests), other))
  ]
]
