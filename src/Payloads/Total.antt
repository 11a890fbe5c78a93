-- ===== src/Payloads/Total.antt =====
-- The reads of a packet, layer by layer, against its length.
use sip_exporter.Prelude.{
  ℕ, ◌+◌, ◌*◌, ◌≡◌, ◌≤◌, refl, Bool, true, false, ◌||◌, List, [], ◌∷◌, is_some, Result, ok, err,
  leb, ltb, if◌then◌else◌, length, drop, slice, slice?-slice, length-slice, length-drop,
  get_elem?-byte_at, be16?-be16, byte_at, bit_and, arith, Bool-cases, Option-cases, inl, inr,
}
use sip_exporter.Layers.{LayerError, invalid_ihl, is_vlan, parse_udp_offset}
use sip_exporter.Layers.Classes.{
  ethernet_of, parse_ethernet-ethernet_of, ipv4_of, parse_ipv4_header-ipv4_of,
}
use sip_exporter.Payloads.{
  Class, as_rtp, as_rtcp, as_sip, not_taken, class_of_payload, flow_of, hand_over, parse_payload,
  parse_udp, parse_ipv4, parse_frame, parse_raw_packet,
}

class_total : (payload : List ℕ) → 1 ≤ length payload → is_some (class_of_payload payload) ≡ true
unfolding class_of_payload
class_total [] h = absurd (omega (arith, h))
class_total (x ∷ payload) h = ground arith

flow_total :
    (packet ip_header : List ℕ) (off : ℕ)
    → length ip_header ≡ 20
    → off + 8 ≤ length packet
    → is_some (flow_of packet ip_header off) ≡ true
unfolding flow_of
flow_total packet ip_header off n m = ground (
  arith,
  n,
  m,
  be16?-be16 packet off,
  be16?-be16 packet (off + 2),
  slice?-slice 12 16 ip_header,
  slice?-slice 16 20 ip_header,
)

hand_over_total :
    (packet ip_header : List ℕ) (off : ℕ) (payload : List ℕ) (class : Class)
    → is_some (flow_of packet ip_header off) ≡ true
    → is_some (hand_over packet ip_header off payload class) ≡ true
hand_over_total packet ip_header off payload as_rtp h = ground (arith, h)
hand_over_total packet ip_header off payload as_rtcp h = ground (arith, h)
hand_over_total packet ip_header off payload as_sip h = refl
hand_over_total packet ip_header off payload not_taken h = refl

payload_total :
    (packet ip_header : List ℕ) (off : ℕ)
    → length ip_header ≡ 20
    → off + 8 ≤ length packet
    → is_some (parse_payload packet ip_header off) ≡ true
unfolding parse_payload
payload_total packet ip_header off n m = elim (Bool-cases (leb (length packet) (off + 8))) [
  | inl empty ↦ rw (parse_payload, empty) refl
  | inr full ↦
      let payload = drop (off + 8) packet in
      let some_bytes : 1 ≤ length payload = ground (arith, full, m, length-drop (off + 8) packet) in
      elim (Option-cases (class_of_payload payload)) [
        | inl panics ↦ absurd (ground (arith, panics, class_total payload some_bytes))
        | inr (class, known) ↦
            rw (parse_payload, full, known)
              (hand_over_total packet ip_header off payload class
                (flow_total packet ip_header off n m))
      ]
]

udp_total :
    (packet ip_header : List ℕ) (ip_offset ip_header_len : ℕ)
    → length ip_header ≡ 20
    → is_some (parse_udp packet ip_header (parse_udp_offset packet ip_offset ip_header_len)) ≡ true
unfolding parse_udp_offset
udp_total packet ip_header ip_offset ip_header_len n =
    elim (Bool-cases (ltb (length packet) (ip_offset + ip_header_len + 8))) [
      | inl short ↦ rw short refl
      | inr long ↦
          rw long
            (payload_total packet ip_header (ip_offset + ip_header_len) n (ground (arith, long)))
    ]

header_total :
    (packet ip_header : List ℕ) (off len : ℕ)
    → length ip_header ≡ 20
    → is_some (parse_ipv4 packet off (ok (ip_header, len))) ≡ true
header_total packet ip_header off len n =
    ground (
      arith,
      get_elem?-byte_at ip_header 9 (omega (arith, n)),
      udp_total packet ip_header off len n,
    )

if_some :
    (packet : List ℕ) (off : ℕ) (b : Bool) (x y : Result LayerError (List ℕ × ℕ))
    → is_some (parse_ipv4 packet off x) ≡ true
    → is_some (parse_ipv4 packet off y) ≡ true
    → is_some (parse_ipv4 packet off (if b then x else y)) ≡ true
if_some packet off true x y h g = h
if_some packet off false x y h g = g

ipv4_total :
    (packet : List ℕ) (off : ℕ)
    → off + 20 ≤ length packet
    → is_some (parse_ipv4 packet off (ipv4_of packet off)) ≡ true
ipv4_total packet off h =
    let ihl = bit_and (byte_at packet off) 15 in
    if_some packet off (ltb ihl 5 || ltb 15 ihl) (err invalid_ihl)
      (ok (slice off (off + 20) packet, ihl * 4)) refl
      (header_total packet (slice off (off + 20) packet) off (ihl * 4)
        (omega (arith, length-slice off (off + 20) packet (omega arith) h)))

-- The bytes of an EtherType.
frame_total :
    (packet eth_type : List ℕ) (off : ℕ)
    → length eth_type ≡ 2
    → off + 20 ≤ length packet
    → is_some (parse_frame packet (ok (off, eth_type))) ≡ true
frame_total packet eth_type off n h = ground (
  arith,
  get_elem?-byte_at eth_type 0 (omega (arith, n)),
  get_elem?-byte_at eth_type 1 (omega (arith, n)),
  parse_ipv4_header-ipv4_of packet off h,
  ipv4_total packet off h,
)

frames_total : (packet : List ℕ) → is_some (parse_frame packet (ethernet_of packet)) ≡ true
frames_total packet = elim (Bool-cases (ltb (length packet) 42)) [
  | inl short ↦ rw short refl
  | inr long ↦
      let size : 42 ≤ length packet = ground (arith, long) in
      elim (Bool-cases (is_vlan (byte_at packet 12) (byte_at packet 13))) [
        | inr plain ↦
            rw (long, plain)
              (frame_total packet (slice 12 14 packet) 14
                (omega (arith, length-slice 12 14 packet (omega arith) (omega (arith, size))))
                (omega (arith, size)))
        | inl vlan ↦ elim (Bool-cases (ltb (length packet) 46)) [
          | inl cut ↦ rw (long, vlan, cut) refl
          | inr room ↦
              rw (long, vlan, room)
                (frame_total packet (slice 16 18 packet) 18
                  (omega (arith, length-slice 16 18 packet (omega arith) (omega (arith, size))))
                  (omega (arith, size)))
        ]
      ]
]

-- `parseRawPacket` reads every packet without a panic, down to the call of a handler or to an error.
pub parse_raw_packet_total : (packet : List ℕ) → is_some (parse_raw_packet packet) ≡ true
unfolding parse_raw_packet
parse_raw_packet_total packet =
    rw (parse_raw_packet, parse_ethernet-ethernet_of packet) (frames_total packet)
