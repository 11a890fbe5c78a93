-- ===== src/Rtcp/Wire.antt =====
-- Report blocks against the layout in RFC 3550, section 6.4.1.
use sip_exporter.Prelude.{
  ℕ, ◌+◌, ◌-◌, ◌*◌, ◌/◌, ◌%◌, ◌^◌, ◌≡◌, ◌∙◌, ap, List, [], ◌∷◌, ◌++◌, some, arith,
}
use sip_exporter.Prelude.Int.{ℤ, pos, negsuc, ◌≤ℤ◌}
use sip_exporter.Rtcp.{ReportBlock, sign_extend, parse_report_block}
use sip_exporter.Rtcp.Total.{block_of, parse_report_block-block_of}

-- The low 24 bits of a signed number.
abbrev pub low_24 : ℤ → ℕ
low_24 (pos n) = n
low_24 (negsuc n) = 2 ^ 24 - 1 - n

abbrev be32_bytes : ℕ → List ℕ
be32_bytes n = (n / 2 ^ 24) ∷ (n / 2 ^ 16 % 256) ∷ (n / 256 % 256) ∷ (n % 256) ∷ []

abbrev be24_bytes : ℕ → List ℕ
be24_bytes n = (n / 2 ^ 16) ∷ (n / 256 % 256) ∷ (n % 256) ∷ []

-- The 24 bytes of a block; `highest` is the extended sequence number, which the parser skips.
abbrev pub encode_block : ℕ → ReportBlock → List ℕ
encode_block highest b =
    be32_bytes b.ssrc
    ++ (b.fraction_lost ∷ []
        ++ (be24_bytes (low_24 b.cumulative_lost)
            ++ (be32_bytes highest
                ++ (be32_bytes b.jitter ++ (be32_bytes b.lsr ++ be32_bytes b.dlsr)))))

pub record IsBlock (b : ReportBlock) : Type 0 where
  pub lost_least : negsuc (2 ^ 23 - 1) ≤ℤ b.cumulative_lost
  pub lost_most : b.cumulative_lost ≤ℤ pos (2 ^ 23 - 1)

sign_extend-low_24 :
    (z : ℤ) → negsuc (2 ^ 23 - 1) ≤ℤ z → z ≤ℤ pos (2 ^ 23 - 1) → sign_extend (low_24 z) ≡ z
sign_extend-low_24 (pos n) h k = ground arith
sign_extend-low_24 (negsuc n) h k = ground arith

be32_again :
    (n : ℕ)
    → (n / 2 ^ 24 * 2 ^ 8 + n / 2 ^ 16 % 256) * 2 ^ 16 + (n / 256 % 256 * 2 ^ 8 + n % 256) ≡ n
be32_again n = omega arith

be24_again : (n : ℕ) → n / 2 ^ 16 * 2 ^ 16 + n / 256 % 256 * 2 ^ 8 + n % 256 ≡ n
be24_again n = omega arith

pub block_of-encode :
    (highest : ℕ) (b : ReportBlock) → IsBlock b → block_of (encode_block highest b) ≡ b
block_of-encode highest b w = rw (
  be32_again b.ssrc,
  be24_again (low_24 b.cumulative_lost),
  sign_extend-low_24 b.cumulative_lost w.lost_least w.lost_most,
  be32_again b.jitter,
  be32_again b.lsr,
  be32_again b.dlsr,
)

-- Every loss count of a signed 24-bit field, negative ones included, is read back from its bytes.
pub parse_report_block-encode :
    (highest : ℕ) (b : ReportBlock)
    → IsBlock b
    → parse_report_block (encode_block highest b) ≡ some b
parse_report_block-encode highest b w =
    parse_report_block-block_of (encode_block highest b) (omega arith)
    ∙ ap some (block_of-encode highest b w)
