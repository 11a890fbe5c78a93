-- ===== src/Examples/Payloads.antt =====
-- The payloads that share a port, and a whole packet of each kind.
use sip_exporter.Prelude.{
  ℕ, ◌≡◌, refl, inl, inr, true, false, List, [], ◌∷◌, ◌++◌, some, is_some, arith,
}
use sip_exporter.Text.{Bytes, codes, has_prefix, equal}
use sip_exporter.Sip.{is_sip_method, has_method_prefix}
use sip_exporter.Rtp.{Header}
use sip_exporter.Rtp.Wire
use sip_exporter.Rtp.Wire.{IsHeader}
use sip_exporter.Rtcp.Compound
use sip_exporter.Rtcp.Compound.{Sent, IsSent}
use sip_exporter.Payloads.{as_rtp, as_rtcp, as_sip, class_of_payload, parse_raw_packet}
use sip_exporter.Payloads.Kinds.{class_of_payload_kinds}
use sip_exporter.Payloads.Total.{parse_raw_packet_total}

abbrev receiver : Sent
receiver = record { type = 201; sender = 0 ∷ 0 ∷ 0 ∷ 1 ∷ []; blocks = [] }

receiver-IsSent : IsSent receiver
receiver-IsSent = record { kind = inr (refl, refl); count_fits = omega arith; blocks_fit = tt }

abbrev pcma : Header
pcma = record {
  version = 2;
  padding = false;
  extension = false;
  csrc_count = 0;
  marker = true;
  payload_type = 8;
  sequence_number = 9;
  timestamp = 160;
  ssrc = 7;
}

abbrev text : Bytes
text = codes "OPTIONS sip:bob@example.org SIP/2.0\r\nCall-ID: 1234567890\r\n"

class_of_payload_kinds_example :
    (class_of_payload (Compound.encode (receiver ∷ [])) ≡ some as_rtcp)
    × (class_of_payload (Wire.encode pcma ++ (1 ∷ 2 ∷ [])) ≡ some as_rtp)
    × (class_of_payload text ≡ some as_sip)
unfolding is_sip_method has_method_prefix has_prefix equal
class_of_payload_kinds_example =
    class_of_payload_kinds receiver [] pcma (1 ∷ 2 ∷ []) text receiver-IsSent (omega arith)
      (inl (omega arith)) refl (omega arith)

abbrev frame : List ℕ
frame =
    0 ∷ 0 ∷ 0 ∷ 0 ∷ 0 ∷ 0 ∷ 0 ∷ 0 ∷ 0 ∷ 0 ∷ 0 ∷ 0 ∷ 8 ∷ 0 ∷ 69 ∷ 0 ∷ 0 ∷ 0 ∷ 0 ∷ 0 ∷ 0 ∷ 0 ∷ 64 ∷ 17
    ∷ 0 ∷ 0 ∷ 10 ∷ 0 ∷ 0 ∷ 1 ∷ 10 ∷ 0 ∷ 0 ∷ 2 ∷ 19 ∷ 196 ∷ 19 ∷ 196 ∷ 0 ∷ 0 ∷ 0 ∷ 0 ∷ text

parse_raw_packet_total_example : is_some (parse_raw_packet frame) ≡ true
parse_raw_packet_total_example = parse_raw_packet_total frame
