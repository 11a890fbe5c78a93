-- ===== src/Examples/Layers.antt =====
-- A UDP packet from port 5060.
use sip_exporter.Prelude.{ℕ, ◌≡◌, refl, true, List, [], ◌∷◌, ◌++◌, some, Result, replicate, be16?}
use sip_exporter.Layers.{LayerError, is_sip_packet}
use sip_exporter.Layers.Classes.{udp_offset, class_of, is_sip_packet_agrees}

abbrev packet : List ℕ
packet =
    replicate 12 0
    ++ ((8 ∷ 0 ∷ 0x45 ∷ []) ++ (replicate 19 0 ++ ((0x13 ∷ 0xc4 ∷ 0 ∷ 9 ∷ []) ++ replicate 4 0)))

from_sip_port : is_sip_packet packet (5061 ∷ 5060 ∷ []) ≡ some true
unfolding is_sip_packet be16?
from_sip_port = refl

is_sip_packet_agrees_example :
    (found : Result LayerError ℕ) × (udp_offset packet ≡ some found)
    × (is_sip_packet packet (5061 ∷ 5060 ∷ []) ≡ some (class_of packet (5061 ∷ 5060 ∷ []) found))
is_sip_packet_agrees_example = is_sip_packet_agrees packet (5061 ∷ 5060 ∷ [])
