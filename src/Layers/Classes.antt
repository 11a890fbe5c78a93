-- ===== src/Layers/Classes.antt =====
-- The quick test against the parser of the layers.
use sip_exporter.Prelude.{
  ℕ, zero, suc, ◌+◌, ◌-◌, ◌*◌, ◌≤◌, ◌<◌, ◌≡◌, ◌∙◌, refl, Bool, true, ◌||◌, ◌&&◌, List, [], ◌∷◌,
  Option, some, Result, ok, err, ltb, if◌then◌else◌, length, get_elem?, get_elem?-byte_at, get_or,
  take, drop, slice, slice?-slice, length-slice, byte_at, be16, be16?-be16, bit_and, arith,
}
use sip_exporter.Prelude.Partial.{◌>>=◌}
use sip_exporter.Layers.{
  LayerError, wrong_len, invalid_ihl, udp_header_too_short, is_vlan, has_port, is_sip_packet,
  parse_ethernet, parse_ipv4_header, parse_udp_offset,
}

get_or-take : (n : ℕ) (xs : List ℕ) (i : ℕ) → i < n → get_or (take n xs) i 0 ≡ get_or xs i 0
get_or-take zero xs i h = absurd (omega arith)
get_or-take (suc n) [] i h = refl
get_or-take (suc n) (x ∷ xs) zero h = refl
get_or-take (suc n) (x ∷ xs) (suc i) h = get_or-take n xs i (omega arith)

get_or-drop : (n : ℕ) (xs : List ℕ) (i : ℕ) → get_or (drop n xs) i 0 ≡ get_or xs (n + i) 0
get_or-drop zero xs i = let e : 0 + i ≡ i = omega arith in rw e refl
get_or-drop (suc n) [] i = refl
get_or-drop (suc n) (x ∷ xs) i =
    let e : suc n + i ≡ suc (n + i) = omega arith in rw e (get_or-drop n xs i)

pub byte_at-slice :
    (lo hi : ℕ) (xs : List ℕ) (i : ℕ)
    → lo + i < hi
    → hi ≤ length xs
    → get_elem? (slice lo hi xs) i ≡ some (byte_at xs (lo + i))
byte_at-slice lo hi xs i h k =
    let same : byte_at (slice lo hi xs) i ≡ byte_at xs (lo + i) =
      get_or-take (hi - lo) (drop lo xs) i (omega arith) ∙ get_or-drop lo xs i in
    rw (← same) (get_elem?-byte_at (slice lo hi xs) i (omega (arith, length-slice lo hi xs)))

-- The offset of the UDP header, through the layers as the exporter goes through them.
abbrev pub udp_offset : List ℕ → Option (Result LayerError ℕ)
udp_offset packet = do
  ethernet ← parse_ethernet packet
  elim ethernet [
    | err e ↦ some (err e)
    | ok (ip_offset, eth_type) ↦ do
      ipv4 ← parse_ipv4_header packet ip_offset
      elim ipv4 [
        | err e ↦ some (err e)
        | ok (ip_header, ip_header_len) ↦ some (parse_udp_offset packet ip_offset ip_header_len)
      ]
  ]

-- What the quick test should say of a packet with this outcome.
abbrev pub class_of : List ℕ → List ℕ → Result LayerError ℕ → Bool
class_of packet ports (err e) = true
class_of packet ports (ok off) = has_port (be16 packet off) (be16 packet (off + 2)) ports

abbrev pub ip_start : List ℕ → ℕ
ip_start p = if is_vlan (byte_at p 12) (byte_at p 13) then 18 else 14

abbrev pub ihl_of : List ℕ → ℕ
ihl_of p = bit_and (byte_at p (ip_start p)) 15

-- The offset with no read that could fail.
abbrev offset_of : List ℕ → Result LayerError ℕ
offset_of p =
    if ltb (length p) 42
    then err wrong_len
    else if is_vlan (byte_at p 12) (byte_at p 13) && ltb (length p) 46
    then err wrong_len
    else if ltb (ihl_of p) 5 || ltb 15 (ihl_of p)
    then err invalid_ihl
    else if ltb (length p) (ip_start p + ihl_of p * 4 + 8)
    then err udp_header_too_short
    else ok (ip_start p + ihl_of p * 4)

is_sip_packet-offset_of :
    (p ports : List ℕ) → is_sip_packet p ports ≡ some (class_of p ports (offset_of p))
unfolding is_sip_packet
is_sip_packet-offset_of p ports = ground (
  arith,
  get_elem?-byte_at p 12,
  get_elem?-byte_at p 13,
  get_elem?-byte_at p (ip_start p),
  be16?-be16 p (ip_start p + ihl_of p * 4),
  be16?-be16 p (ip_start p + ihl_of p * 4 + 2),
)

abbrev pub ethernet_of : List ℕ → Result LayerError (ℕ × List ℕ)
ethernet_of p =
    if ltb (length p) 42
    then err wrong_len
    else if is_vlan (byte_at p 12) (byte_at p 13) && ltb (length p) 46
    then err wrong_len
    else ok
        (ip_start p, if is_vlan (byte_at p 12) (byte_at p 13) then slice 16 18 p else slice 12 14 p)

pub parse_ethernet-ethernet_of : (p : List ℕ) → parse_ethernet p ≡ some (ethernet_of p)
unfolding parse_ethernet
parse_ethernet-ethernet_of p = ground (
  arith,
  slice?-slice 12 14 p,
  slice?-slice 16 18 p,
  byte_at-slice 12 14 p 0,
  byte_at-slice 12 14 p 1,
)

abbrev pub ipv4_of : List ℕ → ℕ → Result LayerError (List ℕ × ℕ)
ipv4_of p off =
    let ihl = bit_and (byte_at p off) 15 in
    if ltb ihl 5 || ltb 15 ihl then err invalid_ihl else ok (slice off (off + 20) p, ihl * 4)

pub parse_ipv4_header-ipv4_of :
    (p : List ℕ) (off : ℕ) → off + 20 ≤ length p → parse_ipv4_header p off ≡ some (ipv4_of p off)
unfolding parse_ipv4_header
parse_ipv4_header-ipv4_of p off h =
    ground (arith, slice?-slice off (off + 20) p, byte_at-slice off (off + 20) p 0)

udp_offset-offset_of : (p : List ℕ) → udp_offset p ≡ some (offset_of p)
unfolding parse_udp_offset
udp_offset-offset_of p =
    ground (arith, parse_ethernet-ethernet_of p, parse_ipv4_header-ipv4_of p (ip_start p))

-- The layers of every packet are read without a panic, and the quick test agrees: SIP where they
-- are malformed, and otherwise just where the source or the destination port is one of `ports`.
pub is_sip_packet_agrees :
    (packet ports : List ℕ)
    → (found : Result LayerError ℕ) × (udp_offset packet ≡ some found)
      × (is_sip_packet packet ports ≡ some (class_of packet ports found))
is_sip_packet_agrees packet ports =
    (offset_of packet, udp_offset-offset_of packet, is_sip_packet-offset_of packet ports)
