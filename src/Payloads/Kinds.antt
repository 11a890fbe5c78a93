-- ===== src/Payloads/Kinds.antt =====
-- How payloads of SIP, RTP and RTCP are classified.
use sip_exporter.Prelude.{
  ℕ, ◌+◌, ◌≡◌, ◌≤◌, ◌<◌, refl, ◌∙◌, Bool, true, false, ◌&&◌, List, [], ◌∷◌, ◌++◌, some, ◌==◌, ltb,
  length, bit_and, arith, nat_key, Bool-cases, inl, inr, ◌⊎◌,
}
use sip_exporter.Prelude.Bits.{mask_0xc0}
use sip_exporter.Text.{Bytes, has_prefix}
use sip_exporter.Sip.{has_method_prefix, any_method, sip_methods, is_sip_method}
use sip_exporter.Rtp.{Header}
use sip_exporter.Rtp.Wire
use sip_exporter.Rtp.Wire.{IsHeader}
use sip_exporter.Rtcp.Compound
use sip_exporter.Rtcp.Compound.{Sent, IsSent}
use sip_exporter.Payloads.{as_rtp, as_rtcp, as_sip, media_class, class_of_payload}

abbrev heads_small : List Bytes → Bool
heads_small [] = true
heads_small ([] ∷ ms) = false
heads_small ((y ∷ m) ∷ ms) = ltb y 128 && heads_small ms

prefix_small :
    (x y : ℕ) (s m : Bytes) → has_method_prefix (x ∷ s) (y ∷ m) ≡ true → y < 128 → x < 128
unfolding has_method_prefix has_prefix
prefix_small x y s m h g = ground (arith, nat_key, h, g)

method_small :
    (x : ℕ) (s : Bytes) (ms : List Bytes)
    → heads_small ms ≡ true
    → any_method (x ∷ s) ms ≡ true
    → x < 128
method_small x s [] h g = absurd (ground (arith, g))
method_small x s ([] ∷ ms) h g = absurd (ground (arith, h))
method_small x s ((y ∷ m) ∷ ms) h g = elim (Bool-cases (has_method_prefix (x ∷ s) (y ∷ m))) [
  | inl this ↦ prefix_small x y s m this (ground (arith, h))
  | inr other ↦ method_small x s ms (ground (arith, h)) (ground (arith, g, other))
]

sip_class :
    (payload : Bytes)
    → is_sip_method payload ≡ true
    → 50 ≤ length payload
    → class_of_payload payload ≡ some as_sip
unfolding class_of_payload is_sip_method
sip_class [] h n = absurd (omega (arith, n))
sip_class (x ∷ payload) h n =
    let small = method_small x payload sip_methods refl h in
    ground (arith, h, n, small, mask_0xc0 x (omega (arith, small)))

version_two : (x : ℕ) → 128 ≤ x → x < 192 → bit_and x 0xc0 == 128 ≡ true
version_two x h g = ground (arith, h, g, mask_0xc0 x (omega (arith, g)))

media_payload :
    (x : ℕ) (payload : List ℕ)
    → 128 ≤ x
    → x < 192
    → class_of_payload (x ∷ payload) ≡ some (media_class (x ∷ payload))
unfolding class_of_payload
media_payload x payload h g = rw (version_two x h g) refl

rtcp_class :
    (s : Sent) (ss : List Sent)
    → IsSent s
    → class_of_payload (Compound.encode (s ∷ ss)) ≡ some as_rtcp
rtcp_class s ss w =
    let fits = w.count_fits in
    media_payload (128 + length s.blocks) _ (omega arith) (omega (arith, fits)) ∙ elim w.kind [
      | inl (sender, size) ↦ ground (arith, sender)
      | inr (receiver, size) ↦ ground (arith, receiver)
    ]

-- A payload type that is not read as that of an RTCP packet, with or without the marker.
abbrev pub IsRtpType : ℕ → Type 0
IsRtpType t = (t < 72) ⊎ (76 < t)

rtp_class :
    (h : Header) (payload : List ℕ)
    → IsHeader h
    → IsRtpType h.payload_type
    → class_of_payload (Wire.encode h ++ payload) ≡ some as_rtp
rtp_class h payload w t =
    let v = w.version_two in
    let c = w.csrc_fits in
    let p = w.type_fits in
    media_payload (Wire.first_byte h) _ (ground (arith, v, c)) (ground (arith, v, c))
    ∙ ground (arith, t, p)

-- The three kinds of payload that share the ports are told apart: a compound of RTCP reports is taken
-- as RTCP, a packet of RTP as RTP where its payload type is not one of 72 to 76, and a text of at
-- least 50 bytes that begins with a SIP method as SIP.
pub class_of_payload_kinds :
    (s : Sent) (ss : List Sent) (h : Header) (payload : List ℕ) (text : Bytes)
    → IsSent s
    → IsHeader h
    → IsRtpType h.payload_type
    → is_sip_method text ≡ true
    → 50 ≤ length text
    → (class_of_payload (Compound.encode (s ∷ ss)) ≡ some as_rtcp)
      × (class_of_payload (Wire.encode h ++ payload) ≡ some as_rtp)
      × (class_of_payload text ≡ some as_sip)
class_of_payload_kinds s ss h payload text r w t m n =
    (rtcp_class s ss r, rtp_class h payload w t, sip_class text m n)
