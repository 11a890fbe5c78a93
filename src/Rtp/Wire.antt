-- ===== src/Rtp/Wire.antt =====
-- `ParseHeader` against the layout of the fixed header in RFC 3550, section 5.1.
use sip_exporter.Prelude.{
  ℕ, ◌+◌, ◌*◌, ◌/◌, ◌%◌, ◌^◌, ◌≤◌, ◌<◌, ◌≡◌, ◌≢◌, ◌↔◌, refl, Bool, List, [], ◌∷◌, ◌++◌, ok, err,
  arith, length, take, byte_at, IsBytes, byte_at-IsByte, has_bit, bit_and, be16, be32, sym, ap, ap₂,
  ◌∙◌, if◌then◌else◌,
}
use sip_exporter.Prelude.Bits.{mask_0x20, mask_0x10, mask_0x80, mask_0x0f, mask_0x7f}
use sip_exporter.Rtp.{Header, invalid_rtp, not_rtp, header_fields, parse_header}

abbrev bit : Bool → ℕ
bit b = if b then 1 else 0

abbrev be16_bytes : ℕ → List ℕ
be16_bytes n = (n / 256 % 256) ∷ (n % 256) ∷ []

abbrev be32_bytes : ℕ → List ℕ
be32_bytes n = be16_bytes (n / 2 ^ 16) ++ be16_bytes (n % 2 ^ 16)

abbrev pub first_byte : Header → ℕ
first_byte h = h.version * 64 + bit h.padding * 32 + bit h.extension * 16 + h.csrc_count

abbrev second_byte : Header → ℕ
second_byte h = bit h.marker * 128 + h.payload_type

-- The twelve bytes that RFC 3550 gives a header.
abbrev pub encode : Header → List ℕ
encode h =
    first_byte h ∷ second_byte h ∷ be16_bytes h.sequence_number
    ++ (be32_bytes h.timestamp ++ be32_bytes h.ssrc)

pub record IsHeader (h : Header) : Type 0 where
  pub version_two : h.version ≡ 2
  pub csrc_fits : h.csrc_count < 16
  pub type_fits : h.payload_type < 128
  pub sequence_fits : h.sequence_number < 2 ^ 16
  pub timestamp_fits : h.timestamp < 2 ^ 32
  pub ssrc_fits : h.ssrc < 2 ^ 32

-- Decoding what RFC 3550 encodes gives the header back, whatever payload follows.
pub parse_header-encode :
    (h : Header) (payload : List ℕ) → IsHeader h → parse_header (encode h ++ payload) ≡ ok h
unfolding parse_header
parse_header-encode h payload w = ground (
  arith,
  mask_0x20 (first_byte h),
  mask_0x10 (first_byte h),
  mask_0x0f (first_byte h),
  mask_0x80 (second_byte h),
  mask_0x7f (second_byte h),
)

-- The bytes that the header is read from are below 256.
abbrev HeadBytes : List ℕ → Type 0
HeadBytes bs =
    (byte_at bs 0 < 256)
    × (byte_at bs 1 < 256)
    × (byte_at bs 2 < 256)
    × (byte_at bs 3 < 256)
    × (byte_at bs 4 < 256)
    × (byte_at bs 5 < 256)
    × (byte_at bs 6 < 256)
    × (byte_at bs 7 < 256)
    × (byte_at bs 8 < 256)
    × (byte_at bs 9 < 256)
    × (byte_at bs 10 < 256)
    × (byte_at bs 11 < 256)

head_bytes : (bs : List ℕ) → IsBytes bs → HeadBytes bs
head_bytes bs w = (at 0, at 1, at 2, at 3, at 4, at 5, at 6, at 7, at 8, at 9, at 10, at 11)
  where
    at : (i : ℕ) → byte_at bs i < 256
    at i = byte_at-IsByte bs i w

-- A header that was parsed has fields in range.
pub parse_header-IsHeader :
    (bs : List ℕ) (h : Header) → IsBytes bs → parse_header bs ≡ ok h → IsHeader h
unfolding parse_header
parse_header-IsHeader bs h w e =
    ground (arith, head_bytes bs w, mask_0x0f (byte_at bs 0), mask_0x7f (byte_at bs 1))

head_twelve :
    (bs : List ℕ)
    → 12 ≤ length bs
    → take 12 bs
      ≡ byte_at bs 0
        ∷ byte_at bs 1
        ∷ byte_at bs 2
        ∷ byte_at bs 3
        ∷ byte_at bs 4
        ∷ byte_at bs 5
        ∷ byte_at bs 6
        ∷ byte_at bs 7
        ∷ byte_at bs 8
        ∷ byte_at bs 9
        ∷ byte_at bs 10
        ∷ byte_at bs 11
        ∷ []
head_twelve (a ∷ b ∷ c ∷ d ∷ e ∷ f ∷ g ∷ h ∷ i ∷ j ∷ k ∷ l ∷ bs) p = refl
head_twelve _ p = absurd (omega arith)

flags_back :
    (b : ℕ)
    → b < 256
    → b / 64 ≡ 2
    → 2 * 64 + bit (has_bit b 0x20) * 32 + bit (has_bit b 0x10) * 16 + bit_and b 0x0f ≡ b
flags_back b h v = ground (arith, mask_0x20 b, mask_0x10 b, mask_0x0f b)

marker_back : (b : ℕ) → b < 256 → bit (has_bit b 0x80) * 128 + bit_and b 0x7f ≡ b
marker_back b h = ground (arith, mask_0x80 b, mask_0x7f b)

be16_back : (a b : ℕ) → a < 256 → b < 256 → be16_bytes (a * 2 ^ 8 + b) ≡ a ∷ b ∷ []
be16_back a b h k = ground arith

be32_back :
    (a b c d : ℕ)
    → a < 256
    → b < 256
    → c < 256
    → d < 256
    → be32_bytes ((a * 2 ^ 8 + b) * 2 ^ 16 + (c * 2 ^ 8 + d)) ≡ a ∷ b ∷ c ∷ d ∷ []
be32_back a b c d h k l m = ground arith

encode-header_fields :
    (bs : List ℕ)
    → HeadBytes bs
    → 12 ≤ length bs
    → byte_at bs 0 / 64 ≡ 2
    → encode (header_fields bs) ≡ take 12 bs
unfolding header_fields
encode-header_fields bs h n v =
    rw (flags_back (byte_at bs 0) h.0 v, marker_back (byte_at bs 1) h.1)
      (ap (λ t. byte_at bs 0 ∷ byte_at bs 1 ∷ t) fields ∙ sym (head_twelve bs n))
  where
    at : ℕ → ℕ
    at = byte_at bs

    fields :
        be16_bytes (be16 bs 2) ++ (be32_bytes (be32 bs 4) ++ be32_bytes (be32 bs 8))
        ≡ at 2 ∷ at 3 ∷ at 4 ∷ at 5 ∷ at 6 ∷ at 7 ∷ at 8 ∷ at 9 ∷ at 10 ∷ at 11 ∷ []
    fields = ap₂ ◌++◌ (be16_back (at 2) (at 3) h.2 h.3) (
        ap₂ ◌++◌ (be32_back (at 4) (at 5) (at 6) (at 7) h.4 h.5 h.6 h.7)
          (be32_back (at 8) (at 9) (at 10) (at 11) h.8 h.9 h.10 h.11))

parsed_from :
    (bs : List ℕ) (h : Header)
    → parse_header bs ≡ ok h
    → (12 ≤ length bs) × (byte_at bs 0 / 64 ≡ 2) × (header_fields bs ≡ h)
unfolding parse_header
parsed_from bs h e = ground arith

-- Encoding what was parsed gives the first twelve bytes back.
pub encode-parse_header :
    (bs : List ℕ) (h : Header) → IsBytes bs → parse_header bs ≡ ok h → encode h ≡ take 12 bs
encode-parse_header bs h w e =
    let (n, v, same) = parsed_from bs h e in
    rw (← same) (encode-header_fields bs (head_bytes bs w) n v)

-- Which error.
pub parse_header_errors :
    (bs : List ℕ)
    → ((parse_header bs ≡ err invalid_rtp) ↔ (length bs < 12))
      × ((parse_header bs ≡ err not_rtp) ↔ ((12 ≤ length bs) × (byte_at bs 0 / 64 ≢ 2)))
unfolding parse_header
parse_header_errors bs = ground arith
