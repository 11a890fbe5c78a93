-- ===== src/Examples/Rtcp.antt =====
-- internal/rtcp at concrete inputs.
use sip_exporter.Prelude.{ℕ, ◌≡◌, refl, inr, List, [], ◌∷◌, map, some, none, arith}
use sip_exporter.Prelude.Int.{negsuc}
use sip_exporter.Rtcp.{ReportBlock, parse, parse_report_block}
use sip_exporter.Rtcp.Total.{Returns, parse-Returns}
use sip_exporter.Rtcp.Compound.{Sent, encode, report_of, parse-encode}

-- One loss less than nothing: the bytes 0xff 0xff 0xff.
abbrev negative : ReportBlock
negative = record {
  ssrc = 7;
  fraction_lost = 3;
  cumulative_lost = negsuc 0;
  jitter = 20;
  lsr = 1;
  dlsr = 2;
}

abbrev zeros : List ℕ
zeros = 0 ∷ 0 ∷ 0 ∷ 0 ∷ []

abbrev receiver : Sent
receiver = record { type = 201; sender = zeros; blocks = (9, negative) ∷ [] }

parse-encode_example :
    parse (encode (receiver ∷ receiver ∷ []))
    ≡ some (map report_of (receiver ∷ receiver ∷ []), none)
parse-encode_example = parse-encode receiver (receiver ∷ []) sound (sound, tt)
  where
    sound : sip_exporter.Rtcp.Compound.IsSent receiver
    sound = record { kind = inr (refl, refl); count_fits = omega arith; blocks_fit = omega arith }

-- A sender report whose length field points past the payload.
parse-Returns_example : Returns (parse (0x81 ∷ 200 ∷ 0 ∷ 9 ∷ []))
parse-Returns_example = parse-Returns (0x81 ∷ 200 ∷ 0 ∷ 9 ∷ [])
