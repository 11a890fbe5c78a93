-- ===== src/Payloads.antt =====
-- internal/exporter/exporter.go: `parseRawPacket`, from the layers of a packet to the handler that its
-- payload is given to. A `none` of `Option` is a panic. The log line and the labels that are resolved
-- for SIP from the IP header are left to the handler.
pub mod Kinds
pub mod Total
use sip_exporter.Prelude.{
  ℕ, ◌+◌, Bool, true, false, not, ◌&&◌, ◌||◌, List, [], ◌∷◌, Option, none, some, Result, ok, err,
  ◌==◌, leb, ltb, if◌then◌else◌, length, drop, get_elem?, be16?, slice?, bit_and,
}
use sip_exporter.Prelude.Partial.{◌>>=◌}
use sip_exporter.Layers.{
  LayerError, udp_header_len, parse_ethernet, parse_ipv4_header, parse_udp_offset,
}
use sip_exporter.Sip.{is_sip_method}

abbrev pub eth_type_ipv4_hi : ℕ
eth_type_ipv4_hi = 0x08

abbrev pub eth_type_ipv4_lo : ℕ
eth_type_ipv4_lo = 0x00

abbrev pub ip_proto_udp : ℕ
ip_proto_udp = 17

abbrev pub min_sip_data_len : ℕ
min_sip_data_len = 50

abbrev pub rtp_version_mask : ℕ
rtp_version_mask = 0xc0

abbrev pub rtp_version2_prefix : ℕ
rtp_version2_prefix = 0x80

abbrev pub rtcp_pt_min : ℕ
rtcp_pt_min = 200

abbrev pub rtcp_pt_max : ℕ
rtcp_pt_max = 204

-- `parseErrTypeL2` and so on
pub data ErrType : Type 0 where
  l2 l3 l4 sip_error : ErrType

abbrev pub is_rtcp_payload : List ℕ → Bool
is_rtcp_payload (a ∷ b ∷ payload) = leb rtcp_pt_min b && leb b rtcp_pt_max
is_rtcp_payload payload = false

-- What a payload is taken for.
pub data Class : Type 0 where
  as_rtp as_rtcp as_sip not_taken : Class

abbrev pub media_class : List ℕ → Class
media_class payload = if is_rtcp_payload payload then as_rtcp else as_rtp

unfoldable pub class_of_payload : List ℕ → Option Class
class_of_payload payload = do
  first ← get_elem? payload 0
  if bit_and first rtp_version_mask == rtp_version2_prefix
      then some (media_class payload)
      else if ltb (length payload) min_sip_data_len
      then some not_taken
      else if not (is_sip_method payload)
      then some not_taken
      else some as_sip

-- The addresses and the ports of a packet.
pub record Flow : Type 0 where
  pub src_ip : List ℕ
  pub src_port : ℕ
  pub dst_ip : List ℕ
  pub dst_port : ℕ

-- The call that ends `parseRawPacket`.
pub data Handled : Type 0 where
  handles_rtp : Flow → List ℕ → Handled
  handles_rtcp : Flow → List ℕ → Handled
  handles_sip : List ℕ → List ℕ → Handled

unfoldable pub flow_of : List ℕ → List ℕ → ℕ → Option Flow
flow_of packet ip_header udp_offset = do
  src_port ← be16? packet udp_offset
  dst_port ← be16? packet (udp_offset + 2)
  src_ip ← slice? 12 16 ip_header
  dst_ip ← slice? 16 20 ip_header
  some (record { src_ip = src_ip; src_port = src_port; dst_ip = dst_ip; dst_port = dst_port })

abbrev pub hand_over : List ℕ → List ℕ → ℕ → List ℕ → Class → Option (Result ErrType Handled)
hand_over packet ip_header udp_offset payload as_rtp = do
  flow ← flow_of packet ip_header udp_offset
  some (ok (handles_rtp flow payload))
hand_over packet ip_header udp_offset payload as_rtcp = do
  flow ← flow_of packet ip_header udp_offset
  some (ok (handles_rtcp flow payload))
hand_over packet ip_header udp_offset payload as_sip = some (ok (handles_sip ip_header payload))
hand_over packet ip_header udp_offset payload not_taken = some (err sip_error)

unfoldable pub parse_payload : List ℕ → List ℕ → ℕ → Option (Result ErrType Handled)
parse_payload packet ip_header udp_offset =
    let sip_offset = udp_offset + udp_header_len in
    if leb (length packet) sip_offset then some (err sip_error) else do
      class ← class_of_payload (drop sip_offset packet)
      hand_over packet ip_header udp_offset (drop sip_offset packet) class

abbrev pub parse_udp : List ℕ → List ℕ → Result LayerError ℕ → Option (Result ErrType Handled)
parse_udp packet ip_header (err e) = some (err l4)
parse_udp packet ip_header (ok udp_offset) = parse_payload packet ip_header udp_offset

abbrev pub parse_ipv4 :
    List ℕ → ℕ → Result LayerError (List ℕ × ℕ) → Option (Result ErrType Handled)
parse_ipv4 packet ip_offset (err e) = some (err l3)
parse_ipv4 packet ip_offset (ok (ip_header, ip_header_len)) = do
  protocol ← get_elem? ip_header 9
  if not (protocol == ip_proto_udp)
      then some (err l4)
      else parse_udp packet ip_header (parse_udp_offset packet ip_offset ip_header_len)

abbrev pub parse_frame : List ℕ → Result LayerError (ℕ × List ℕ) → Option (Result ErrType Handled)
parse_frame packet (err e) = some (err l2)
parse_frame packet (ok (ip_offset, eth_type)) = do
  hi ← get_elem? eth_type 0
  lo ← get_elem? eth_type 1
  if not (hi == eth_type_ipv4_hi) || not (lo == eth_type_ipv4_lo)
      then some (err l3)
      else do ipv4 ← parse_ipv4_header packet ip_offset; parse_ipv4 packet ip_offset ipv4

unfoldable pub parse_raw_packet : List ℕ → Option (Result ErrType Handled)
parse_raw_packet packet = do ethernet ← parse_ethernet packet; parse_frame packet ethernet
