-- ===== src/Layers.antt =====
-- internal/exporter/exporter.go: the layers below SIP, and the quick test that tells SIP from media.
-- A `none` inside `Option` is a panic.
pub mod Classes
use sip_exporter.Prelude.{
  ℕ, ◌+◌, ◌*◌, Bool, true, false, not, ◌&&◌, ◌||◌, List, [], ◌∷◌, Option, none, some, Result, ok,
  err, ltb, ◌==◌, if◌then◌else◌, length, get_elem?, be16?, slice?, bit_and,
}
use sip_exporter.Prelude.Partial.{◌>>=◌}

abbrev pub eth_header_len : ℕ
eth_header_len = 14

abbrev pub vlan_header_len : ℕ
vlan_header_len = 18

abbrev pub vlan_eth_type_hi : ℕ
vlan_eth_type_hi = 0x81

abbrev pub vlan_eth_type_lo : ℕ
vlan_eth_type_lo = 0x00

abbrev pub ip_v4_min_header_len : ℕ
ip_v4_min_header_len = 20

abbrev pub ip_v4_min_ihl : ℕ
ip_v4_min_ihl = 5

abbrev pub ip_v4_max_ihl : ℕ
ip_v4_max_ihl = 15

abbrev pub ip_v4_hdr_len_mask : ℕ
ip_v4_hdr_len_mask = 0x0f

abbrev pub ip_v4_hdr_len_shift : ℕ
ip_v4_hdr_len_shift = 4

abbrev pub udp_header_len : ℕ
udp_header_len = 8

abbrev pub min_raw_packet_len : ℕ
min_raw_packet_len = eth_header_len + ip_v4_min_header_len + udp_header_len

abbrev pub min_vlan_packet_len : ℕ
min_vlan_packet_len = vlan_header_len + ip_v4_min_header_len + udp_header_len

pub data LayerError : Type 0 where
  wrong_len ip_header_too_short invalid_ihl udp_header_too_short : LayerError

abbrev pub is_vlan : ℕ → ℕ → Bool
is_vlan hi lo = hi == vlan_eth_type_hi && lo == vlan_eth_type_lo

-- `for _, p := range ports`
abbrev pub has_port : ℕ → ℕ → List ℕ → Bool
has_port src dst [] = false
has_port src dst (p ∷ ports) = if src == p || dst == p then true else has_port src dst ports

unfoldable pub is_sip_packet : List ℕ → List ℕ → Option Bool
is_sip_packet packet ports = if ltb (length packet) min_raw_packet_len then some true else do
  hi ← get_elem? packet 12
  lo ← get_elem? packet 13
  let offset = if is_vlan hi lo then vlan_header_len else eth_header_len
  first ← get_elem? packet offset
  let ihl = bit_and first ip_v4_hdr_len_mask
  let udp_off = offset + ihl * ip_v4_hdr_len_shift
  if ltb ihl ip_v4_min_ihl || ltb ip_v4_max_ihl ihl
      then some true
      else if ltb (length packet) (udp_off + udp_header_len)
      then some true
      else do
        src ← be16? packet udp_off
        dst ← be16? packet (udp_off + 2)
        some (has_port src dst ports)

-- The IP offset and the bytes of the EtherType.
unfoldable pub parse_ethernet : List ℕ → Option (Result LayerError (ℕ × List ℕ))
parse_ethernet packet = if ltb (length packet) min_raw_packet_len then some (err wrong_len) else do
  eth_type ← slice? 12 14 packet
  hi ← get_elem? eth_type 0
  lo ← get_elem? eth_type 1
  if is_vlan hi lo
      then (if ltb (length packet) min_vlan_packet_len
          then some (err wrong_len)
          else do inner ← slice? 16 18 packet; some (ok (vlan_header_len, inner)))
      else some (ok (eth_header_len, eth_type))

-- The header slice and the length that the header states.
unfoldable pub parse_ipv4_header : List ℕ → ℕ → Option (Result LayerError (List ℕ × ℕ))
parse_ipv4_header packet ip_offset =
    if ltb (length packet) (ip_offset + ip_v4_min_header_len)
    then some (err ip_header_too_short)
    else do
      ip_header ← slice? ip_offset (ip_offset + ip_v4_min_header_len) packet
      first ← get_elem? ip_header 0
      let ihl = bit_and first ip_v4_hdr_len_mask
      if ltb ihl ip_v4_min_ihl || ltb ip_v4_max_ihl ihl
          then some (err invalid_ihl)
          else some (ok (ip_header, ihl * ip_v4_hdr_len_shift))

unfoldable pub parse_udp_offset : List ℕ → ℕ → ℕ → Result LayerError ℕ
parse_udp_offset packet ip_offset ip_header_len =
    let udp_offset = ip_offset + ip_header_len in
    if ltb (length packet) (udp_offset + udp_header_len)
    then err udp_header_too_short
    else ok udp_offset
