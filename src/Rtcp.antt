-- ===== src/Rtcp.antt =====
-- internal/rtcp/parser.go. `none` is a panic or fuel that ran out.
-- A function that returns `(value, error)` gives a pair with an `Option RtcpError`.
pub mod Total
pub mod Wire
pub mod Compound
use sip_exporter.Prelude.{
  ℕ, zero, suc, ◌+◌, ◌-◌, ◌*◌, ◌/◌, ◌%◌, ◌^◌, Bool, true, false, not, ◌&&◌, ◌||◌, List, [], ◌∷◌,
  ◌++◌, Option, none, some, Result, ok, err, ltb, leb, ◌==◌, if◌then◌else◌, length, get_elem?,
  be16?, be32?, slice?, bit_and, is_some,
}
use sip_exporter.Prelude.Int.{ℤ, pos, sub_ℕ}
use sip_exporter.Prelude.Partial.{◌>>=◌}

pub data RtcpError : Type 0 where
  invalid_rtcp not_rtcp truncated : RtcpError

abbrev pub pt_sender_report : ℕ
pt_sender_report = 200

abbrev pub pt_receiver_report : ℕ
pt_receiver_report = 201

abbrev pub common_header_len : ℕ
common_header_len = 4

abbrev pub report_block_len : ℕ
report_block_len = 24

abbrev pub rr_min_len : ℕ
rr_min_len = 8

abbrev pub sr_min_len : ℕ
sr_min_len = 28

pub record ReportBlock : Type 0 where
  pub ssrc : ℕ
  pub fraction_lost : ℕ
  pub cumulative_lost : ℤ
  pub jitter : ℕ
  pub lsr : ℕ
  pub dlsr : ℕ

pub record Report : Type 0 where
  pub type : ℕ
  pub blocks : List ReportBlock

-- The signed reading of a 24-bit field: bit 23 is the sign.
abbrev pub sign_extend : ℕ → ℤ
sign_extend raw = if raw / 2 ^ 23 % 2 == 0 then pos raw else sub_ℕ raw (2 ^ 24)

pub parse_report_block : List ℕ → Option ReportBlock
parse_report_block b = do
  b5 ← get_elem? b 5
  b6 ← get_elem? b 6
  b7 ← get_elem? b 7
  ssrc ← be32? b 0
  fraction ← get_elem? b 4
  jitter ← be32? b 12
  lsr ← be32? b 16
  dlsr ← be32? b 20
  some (record {
    ssrc = ssrc;
    fraction_lost = fraction;
    cumulative_lost = sign_extend (b5 * 2 ^ 16 + b6 * 2 ^ 8 + b7);
    jitter = jitter;
    lsr = lsr;
    dlsr = dlsr;
  })

-- `for range rc`: what is left of the count, and the blocks so far.
pub parse_blocks : ℕ → List ℕ → ℕ → List ReportBlock → Option (List ReportBlock × Option RtcpError)
parse_blocks zero pkt off blocks = some (blocks, none)
parse_blocks (suc rc) pkt off blocks =
    let rest = do
      b ← slice? off (off + report_block_len) pkt
      block ← parse_report_block b
      parse_blocks rc pkt (off + report_block_len) (blocks ++ (block ∷ []))
    in if ltb (length pkt) (off + report_block_len) then some (blocks, some truncated) else rest

abbrev pub no_report : Report
no_report = record { type = 0; blocks = [] }

abbrev pub block_start : ℕ → ℕ
block_start pt = if pt == pt_sender_report then sr_min_len else rr_min_len

pub parse_report : List ℕ → ℕ → Option (Report × Option RtcpError)
unfolding parse_blocks
parse_report pkt pt =
    if ltb (length pkt) common_header_len then some (no_report, some invalid_rtcp) else do
      b0 ← get_elem? pkt 0
      let rc = bit_and b0 0x1f
      if ltb (length pkt) (block_start pt) then some (no_report, some invalid_rtcp) else do
        (blocks, error) ← parse_blocks rc pkt (block_start pt) []
        some (record { type = pt; blocks = blocks }, error)

pub parse_compound_packet : List ℕ → Option (Report × Bool × Option RtcpError)
parse_compound_packet packet = do
  pt ← get_elem? packet 1
  if not (pt == pt_sender_report) && not (pt == pt_receiver_report)
      then some (no_report, false, none)
      else do (report, error) ← parse_report packet pt; some (report, true, error)

pub compound_packet_len : List ℕ → ℕ → Option (Result RtcpError ℕ)
compound_packet_len payload off =
    if ltb (length payload) (off + common_header_len) then some (err truncated) else do
      words ← be16? payload (off + 2)
      let packet_len = (words + 1) * 4
      if ltb (length payload) (off + packet_len) then some (err truncated) else some (ok packet_len)

-- `if isReport && (err == nil || len(report.Blocks) > 0) { reports = append(reports, report) }`
abbrev pub collect : List Report → Report × Bool × Option RtcpError → List Report
collect reports (report, is_report, error) =
    if is_report && (not (is_some error) || ltb 0 (length report.blocks))
    then reports ++ (report ∷ [])
    else reports

-- `if err != nil && firstErr == nil { firstErr = err }`
abbrev pub first_error : Option RtcpError → Option RtcpError → Option RtcpError
first_error none new = new
first_error (some old) new = some old

-- The loop of `Parse`. A round takes four bytes at least.
pub parse_loop :
    ℕ → List ℕ → ℕ → List Report → Option RtcpError → Option (List Report × Option RtcpError)
parse_loop zero payload off reports first =
    if leb (length payload) off then some (reports, first) else none
parse_loop (suc fuel) payload off reports first =
    let round = do
      len ← compound_packet_len payload off
      elim len [
        | err e ↦ some (reports, first_error first (some e))
        | ok packet_len ↦ do
          packet ← slice? off (off + packet_len) payload
          parsed ← parse_compound_packet packet
          parse_loop fuel payload (off + packet_len) (collect reports parsed)
              (first_error first parsed.2)
      ]
    in if leb (length payload) off then some (reports, first) else round

pub parse : List ℕ → Option (List Report × Option RtcpError)
unfolding parse_loop
parse payload = if ltb (length payload) common_header_len then some ([], some invalid_rtcp) else do
  b0 ← get_elem? payload 0
  if not (b0 / 2 ^ 6 == 2)
      then some ([], some not_rtcp)
      else parse_loop (length payload) payload 0 [] none
