-- ===== src/Examples/Rtp.antt =====
-- internal/rtp at concrete inputs.
use sip_exporter.Prelude.{ℕ, ◌≡◌, refl, true, false, List, [], ◌∷◌, ◌++◌, ok, err, arith, take}
use sip_exporter.Rtp.{Header, parse_header, codec_name, invalid_rtp}
use sip_exporter.Rtp.Wire.{encode, parse_header-encode}

abbrev pcma : Header
pcma = record {
  version = 2;
  padding = false;
  extension = true;
  csrc_count = 1;
  marker = true;
  payload_type = 8;
  sequence_number = 65535;
  timestamp = 160;
  ssrc = 0xdeadbeef;
}

parse_header-encode_example : parse_header (encode pcma ++ (1 ∷ 2 ∷ [])) ≡ ok pcma
parse_header-encode_example = parse_header-encode pcma (1 ∷ 2 ∷ []) (omega arith)

abbrev packet : List ℕ
packet = 0x91 ∷ 0x88 ∷ 0xff ∷ 0xff ∷ 0 ∷ 0 ∷ 0 ∷ 160 ∷ 0xde ∷ 0xad ∷ 0xbe ∷ 0xef ∷ 7 ∷ []

packet_parses : parse_header packet ≡ ok pcma
unfolding parse_header
packet_parses = refl

short_packet : parse_header (0x80 ∷ 0 ∷ []) ≡ err invalid_rtp
unfolding parse_header
short_packet = refl

static_name : codec_name 18 [] ≡ "G.729"
unfolding codec_name sip_exporter.Prelude.Assoc.lookup
static_name = refl
