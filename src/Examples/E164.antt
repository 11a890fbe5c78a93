-- ===== src/Examples/E164.antt =====
-- A number with separators, against a table in which one prefix continues another.
use sip_exporter.Prelude.{ℕ, ◌≡◌, ◌≤◌, ◌<◌, refl, Option, none, some, if◌then◌else◌, take, arith}
use sip_exporter.Text.{Bytes, codes, equal}
use sip_exporter.E164.{
  extract_digits, strip_international_prefix, lookup_destination, lookup_destination_longest,
}

abbrev small_table : Bytes → Option Bytes
small_table digits =
    if equal digits (codes "1")
    then some (codes "US")
    else if equal digits (codes "1242")
    then some (codes "BS")
    else none

abbrev bahamas : Bytes
bahamas = codes "12425"

no_longer : (j : ℕ) → 4 < j → j ≤ 5 → small_table (take j bahamas) ≡ none
unfolding equal
no_longer j h g = let at : j ≡ 5 = omega (arith, h, g) in rw at refl

lookup_destination_longest_example :
    lookup_destination small_table (codes "+1 (242) 5") (codes "DE") ≡ codes "BS"
unfolding extract_digits strip_international_prefix equal
lookup_destination_longest_example =
    lookup_destination_longest small_table (codes "+1 (242) 5") (codes "DE") bahamas (codes "BS") 4
      refl (omega arith) (omega arith) refl no_longer

local_number : lookup_destination small_table (codes "0171") (codes "DE") ≡ codes "DE"
unfolding lookup_destination extract_digits strip_international_prefix
local_number = refl
