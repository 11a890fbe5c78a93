-- ===== src/Rtcp/Compound.antt =====
-- Whole compounds: sender and receiver reports laid out as in RFC 3550, sections 6.4.1 and 6.4.2.
use mathlib.Core.List.{append_assoc, append-nil}
use sip_exporter.Prelude.{
  ℕ, zero, suc, ◌+◌, ◌-◌, ◌*◌, ◌/◌, ◌%◌, ◌≤◌, ◌<◌, ◌≡◌, ◌⊎◌, inl, inr, refl, ◌∙◌, ap, true, List,
  [], ◌∷◌, ◌++◌, map, none, some, arith, le→ltb, le→leb, lt→leb, ==-true, ==-false, subst, length,
  length-append, slice, take, drop, byte_at, bit_and, be16, All, ok, slice?-slice, be16?-be16,
}
use sip_exporter.Prelude.Bits.{mask_0x1f}
use sip_exporter.Rtcp.{
  ReportBlock, Report, parse_blocks, parse_report, parse_compound_packet, compound_packet_len,
  parse_loop, parse, block_start,
}
use sip_exporter.Rtcp.Total.{block_of, parse_blocks-suc}
use sip_exporter.Rtcp.Wire.{IsBlock, encode_block, block_of-encode}

module _ {ℓ} {A : Type ℓ} where
  take-append_length : (xs ys : List A) → take (length xs) (xs ++ ys) ≡ xs
  take-append_length [] ys = refl
  take-append_length (x ∷ xs) ys = ap (◌∷◌ x) (take-append_length xs ys)

  drop-append_length : (xs ys : List A) → drop (length xs) (xs ++ ys) ≡ ys
  drop-append_length [] ys = refl
  drop-append_length (x ∷ xs) ys = drop-append_length xs ys

  -- The middle of three parts, cut out by their lengths.
  slice-middle :
      (pre mid post : List A)
      → slice (length pre) (length pre + length mid) (pre ++ (mid ++ post)) ≡ mid
  slice-middle pre mid post =
      let n : length pre + length mid - length pre ≡ length mid = omega arith in
      rw (n, drop-append_length pre (mid ++ post)) (take-append_length mid post)

byte_at-append : (pre xs : List ℕ) (i : ℕ) → byte_at (pre ++ xs) (length pre + i) ≡ byte_at xs i
byte_at-append [] xs i = let e : 0 + i ≡ i = omega arith in rw e
byte_at-append (x ∷ pre) xs i =
    let e : suc (length pre) + i ≡ suc (length pre + i) = omega arith in
    rw e (byte_at-append pre xs i)

-- A report as it is sent: its type, the bytes of the sender part that the parser skips (the
-- sender's SSRC, and 20 bytes more in a sender report), and the blocks.
pub record Sent : Type 0 where
  pub type : ℕ
  pub sender : List ℕ
  pub blocks : List (ℕ × ReportBlock)

abbrev encode_blocks : List (ℕ × ReportBlock) → List ℕ
encode_blocks [] = []
encode_blocks ((highest, b) ∷ bs) = encode_block highest b ++ encode_blocks bs

-- The length field counts 32-bit words, less one.
abbrev words : Sent → ℕ
words s = (4 + length s.sender + 24 * length s.blocks) / 4 - 1

abbrev head_of : Sent → List ℕ
head_of s = (128 + length s.blocks) ∷ s.type ∷ (words s / 256) ∷ (words s % 256) ∷ s.sender

abbrev pub encode_report : Sent → List ℕ
encode_report s = head_of s ++ encode_blocks s.blocks

abbrev pub encode : List Sent → List ℕ
encode [] = []
encode (s ∷ ss) = encode_report s ++ encode ss

pub record IsSent (s : Sent) : Type 0 where
  pub kind : ((s.type ≡ 200) × (length s.sender ≡ 24)) ⊎ ((s.type ≡ 201) × (length s.sender ≡ 4))
  pub count_fits : length s.blocks < 32
  pub blocks_fit : All (λ (p : ℕ × ReportBlock). IsBlock p.1) s.blocks

-- What the parser reports of it.
abbrev pub report_of : Sent → Report
report_of s = record { type = s.type; blocks = map (λ p. p.1) s.blocks }

length-encode_blocks : (bs : List (ℕ × ReportBlock)) → length (encode_blocks bs) ≡ 24 * length bs
length-encode_blocks [] = omega arith
length-encode_blocks ((h, b) ∷ bs) = omega (arith, length-encode_blocks bs)

parse_blocks-step :
    (rc : ℕ) (pre x rest : List ℕ) (acc : List ReportBlock) (b : ReportBlock)
    → length x ≡ 24
    → block_of x ≡ b
    → parse_blocks (suc rc) (pre ++ (x ++ rest)) (length pre) acc
      ≡ parse_blocks rc ((pre ++ x) ++ rest) (length (pre ++ x)) (acc ++ (b ∷ []))
parse_blocks-step rc pre x rest acc b size same =
    parse_blocks-suc rc (pre ++ (x ++ rest)) (length pre) acc room
    ∙ rw (cut, same, append_assoc pre x rest, length-append pre x, size)
  where
    room : length pre + 24 ≤ length (pre ++ (x ++ rest))
    room = omega (arith, length-append pre (x ++ rest), length-append x rest)

    cut : slice (length pre) (length pre + 24) (pre ++ (x ++ rest)) ≡ x
    cut =
        subst (λ n. slice (length pre) (length pre + n) (pre ++ (x ++ rest)) ≡ x) size
          (slice-middle pre x rest)

-- The loop reads the blocks one behind the other.
parse_blocks-encode :
    (bs : List (ℕ × ReportBlock)) (pre : List ℕ) (acc : List ReportBlock)
    → All (λ (p : ℕ × ReportBlock). IsBlock p.1) bs
    → parse_blocks (length bs) (pre ++ encode_blocks bs) (length pre) acc
      ≡ some (acc ++ map (λ p. p.1) bs, none)
parse_blocks-encode [] pre acc w = unfold parse_blocks in rw (append-nil acc)
parse_blocks-encode ((h, b) ∷ bs) pre acc w =
    parse_blocks-step (length bs) pre (encode_block h b) (encode_blocks bs) acc b (omega arith)
      (block_of-encode h b w.0)
    ∙ parse_blocks-encode bs (pre ++ encode_block h b) (acc ++ (b ∷ [])) w.1
    ∙ rw (append_assoc acc (b ∷ []))

block_start-head : (s : Sent) → IsSent s → block_start s.type ≡ length (head_of s)
block_start-head s w = ground (arith, w.kind)

-- One report is read whole.
parse_report-encode :
    (s : Sent) → IsSent s → parse_report (encode_report s) s.type ≡ some (report_of s, none)
unfolding parse_report
parse_report-encode s w = rw (
  mask,
  le→ltb (length (encode_report s)) 4 (omega arith),
  block_start-head s w,
  le→ltb (length (encode_report s)) (length (head_of s)) fits,
  parse_blocks-encode s.blocks (head_of s) [] w.blocks_fit,
)
  where
    mask : bit_and (128 + length s.blocks) 0x1f ≡ length s.blocks
    mask = omega (arith, mask_0x1f (128 + length s.blocks), w.count_fits)

    fits : length (head_of s) ≤ length (encode_report s)
    fits = omega (arith, length-append (head_of s) (encode_blocks s.blocks))

parse_compound_packet-encode :
    (s : Sent) → IsSent s → parse_compound_packet (encode_report s) ≡ some (report_of s, true, none)
unfolding parse_compound_packet
parse_compound_packet-encode s w = elim w.kind [
  | inl (sender, _) ↦ rw (==-true s.type 200 sender, parse_report-encode s w)
  | inr (receiver, _) ↦
      rw (==-false s.type 200 (omega arith), ==-true s.type 201 receiver, parse_report-encode s w)
]

compound_packet_len-encode :
    (pre rest : List ℕ) (s : Sent)
    → IsSent s
    → compound_packet_len (pre ++ (encode_report s ++ rest)) (length pre)
      ≡ some (ok (length (encode_report s)))
unfolding compound_packet_len
compound_packet_len-encode pre rest s w = rw (
  le→ltb (length payload) (length pre + 4) (omega (arith, total)),
  be16?-be16 payload (length pre + 2) (omega (arith, total)),
  field,
  whole,
  le→ltb (length payload) (length pre + length (encode_report s)) (omega (arith, total)),
)
  where
    payload : List ℕ
    payload = pre ++ (encode_report s ++ rest)

    total : length payload ≡ length pre + (length (encode_report s) + length rest)
    total =
        omega
          (arith, length-append pre (encode_report s ++ rest), length-append (encode_report s) rest)

    field : be16 payload (length pre + 2) ≡ words s
    field =
        let third : length pre + 2 + 1 ≡ length pre + 3 = omega arith in
        rw
          (
            third,
            byte_at-append pre (encode_report s ++ rest) 2,
            byte_at-append pre (encode_report s ++ rest) 3,
          )
          (omega arith)

    whole : (words s + 1) * 4 ≡ length (encode_report s)
    whole = omega (
      arith,
      w.kind,
      length-append (head_of s) (encode_blocks s.blocks),
      length-encode_blocks s.blocks,
    )

-- One round of the loop on a report that is read whole.
parse_loop-step :
    (fuel : ℕ) (pre x rest : List ℕ) (reports : List Report) (report : Report)
    → 0 < length x
    → compound_packet_len (pre ++ (x ++ rest)) (length pre) ≡ some (ok (length x))
    → parse_compound_packet x ≡ some (report, true, none)
    → parse_loop (suc fuel) (pre ++ (x ++ rest)) (length pre) reports none
      ≡ parse_loop fuel ((pre ++ x) ++ rest) (length (pre ++ x)) (reports ++ (report ∷ [])) none
unfolding parse_loop
parse_loop-step fuel pre x rest reports report size fits read = rw (
  lt→leb (length (pre ++ (x ++ rest))) (length pre) (omega (arith, total)),
  fits,
  slice?-slice (length pre) (length pre + length x) (pre ++ (x ++ rest)) (omega arith)
      (omega (arith, total)),
  slice-middle pre x rest,
  read,
  append_assoc pre x rest,
  length-append pre x,
)
  where
    total : length (pre ++ (x ++ rest)) ≡ length pre + (length x + length rest)
    total = omega (arith, length-append pre (x ++ rest), length-append x rest)

parse_loop-encode :
    (ss : List Sent) (fuel : ℕ) (pre : List ℕ) (reports : List Report)
    → All IsSent ss
    → length (encode ss) ≤ fuel
    → parse_loop fuel (pre ++ encode ss) (length pre) reports none
      ≡ some (reports ++ map report_of ss, none)
unfolding parse_loop
parse_loop-encode [] zero pre reports w h =
    rw (append-nil pre, le→leb (length pre) (length pre) (omega arith), append-nil reports)
parse_loop-encode [] (suc fuel) pre reports w h =
    rw (append-nil pre, le→leb (length pre) (length pre) (omega arith), append-nil reports)
parse_loop-encode (s ∷ ss) zero pre reports w h = absurd (omega arith)
parse_loop-encode (s ∷ ss) (suc fuel) pre reports w h =
    parse_loop-step fuel pre (encode_report s) (encode ss) reports (report_of s) (omega arith)
      (compound_packet_len-encode pre (encode ss) s w.0) (parse_compound_packet-encode s w.0)
    ∙ parse_loop-encode ss fuel (pre ++ encode_report s) (reports ++ (report_of s ∷ [])) w.1
        (omega (arith, length-append (encode_report s) (encode ss)))
    ∙ rw (append_assoc reports (report_of s ∷ []))

-- Every compound of well-formed reports is decoded to just those reports, with no error.
pub parse-encode :
    (s : Sent) (ss : List Sent)
    → IsSent s
    → All IsSent ss
    → parse (encode (s ∷ ss)) ≡ some (map report_of (s ∷ ss), none)
unfolding parse
parse-encode s ss w ws =
    rw
      (
        le→ltb (length (encode (s ∷ ss))) 4 (omega arith),
        ==-true ((128 + length s.blocks) / 64) 2 (omega (arith, w.count_fits)),
      )
      (parse_loop-encode (s ∷ ss) (length (encode (s ∷ ss))) [] [] (w, ws) (omega arith))
