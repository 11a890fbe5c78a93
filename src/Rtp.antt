-- ===== src/Rtp.antt =====
-- internal/rtp: the fixed header (header.go) and codec names (codec.go).
pub mod Wire
pub mod Codecs
use sip_exporter.Prelude.{
  ℕ, ◌/◌, ◌^◌, Bool, true, false, not, ◌&&◌, List, Option, none, some, String, Result, ok, err, ltb,
  ◌==◌, if◌then◌else◌, length, byte_at, has_bit, be16, be32, bit_and, ite, String-discrete, nat_key,
}
use sip_exporter.Prelude.Assoc.{lookup}

pub data RtpError : Type 0 where
  invalid_rtp not_rtp : RtpError

pub record Header : Type 0 where
  pub version : ℕ
  pub padding : Bool
  pub extension : Bool
  pub csrc_count : ℕ
  pub marker : Bool
  pub payload_type : ℕ
  pub sequence_number : ℕ
  pub timestamp : ℕ
  pub ssrc : ℕ

abbrev pub rtp_version2 : ℕ
rtp_version2 = 2

abbrev pub min_rtp_header_len : ℕ
min_rtp_header_len = 12

-- The composite literal that `ParseHeader` returns.
pub header_fields : List ℕ → Header
header_fields bs = record {
  version = rtp_version2;
  padding = has_bit (byte_at bs 0) 0x20;
  extension = has_bit (byte_at bs 0) 0x10;
  csrc_count = bit_and (byte_at bs 0) 0x0f;
  marker = has_bit (byte_at bs 1) 0x80;
  payload_type = bit_and (byte_at bs 1) 0x7f;
  sequence_number = be16 bs 2;
  timestamp = be32 bs 4;
  ssrc = be32 bs 8;
}

unfoldable pub parse_header : List ℕ → Result RtpError Header
unfolding header_fields
parse_header bs =
    if ltb (length bs) min_rtp_header_len
    then err invalid_rtp
    else if not (byte_at bs 0 / 2 ^ 6 == rtp_version2)
    then err not_rtp
    else ok (header_fields bs)

abbrev pub codec_unknown : String
codec_unknown = "other"

unfoldable pub static_codec_name : ℕ → String
static_codec_name pt =
    if pt == 0
    then "PCMU"
    else if pt == 8
    then "PCMA"
    else if pt == 9
    then "G.722"
    else if pt == 4
    then "G.723"
    else if pt == 15
    then "G.728"
    else if pt == 18
    then "G.729"
    else if pt == 13
    then "CN"
    else codec_unknown

-- A nil map is read as the empty one.
unfoldable pub codec_name : ℕ → List (ℕ × String) → String
unfolding static_codec_name
codec_name pt sdp_map = elim (lookup pt sdp_map) [
  | none ↦ static_codec_name pt
  | some name ↦ ite (String-discrete name "") (static_codec_name pt) name
]

unfoldable pub is_audio_codec : String → Bool
is_audio_codec codec =
    ite (String-discrete codec "telephone-event") false
      (ite (String-discrete codec "CN") false true)
