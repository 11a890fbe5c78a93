-- ===== src/E164.antt =====
-- internal/geoip/e164.go: the country of a telephone number. The generated table of prefixes is the
-- parameter `table`.
use sip_exporter.Prelude.{
  ℕ, zero, suc, ◌≡◌, ◌≤◌, ◌<◌, refl, ap, sym, ◌∙◌, true, false, ◌&&◌, ◌||◌, [], ◌∷◌, Option, none,
  some, ◌==◌, if◌then◌else◌, length, take, arith, Bool-cases, inl, inr,
}
use sip_exporter.Text.{Bytes, codes, is_digit}

abbrev pub unknown_destination : Bytes
unknown_destination = codes "unknown"

-- The digits of a number and its signs `+`.
unfoldable pub extract_digits : Bytes → Bytes
extract_digits [] = []
extract_digits (c ∷ s) =
    let rest = extract_digits s in if is_digit c || c == b'+' then c ∷ rest else rest

abbrev pub two_zeros : ℕ → Bytes → Option Bytes
two_zeros c [] = none
two_zeros c (d ∷ digits) = if c == b'0' && d == b'0' then some digits else none

unfoldable pub strip_international_prefix : Bytes → Option Bytes
strip_international_prefix [] = none
strip_international_prefix (c ∷ digits) = if c == b'+' then some digits else two_zeros c digits

reached : (k n : ℕ) → k == suc n ≡ true → k ≡ suc n
reached k n h = ground (arith, h)

passed : (k n : ℕ) → k ≤ suc n → k == suc n ≡ false → k < suc n
passed k n m h = ground (arith, m, h)

module _ (table : Bytes → Option Bytes) where
  -- The loop of `matchPrefix`, at `i`.
  unfoldable pub match_from : ℕ → Bytes → Bytes
  match_from zero digits = unknown_destination
  match_from (suc i) digits = elim (table (take (suc i) digits)) [
    | some iso ↦ iso
    | none ↦ match_from i digits
  ]

  unfoldable pub match_prefix : Bytes → Bytes
  match_prefix digits = match_from (length digits) digits

  abbrev pub local_or_unknown : Bytes → Bytes
  local_or_unknown [] = unknown_destination
  local_or_unknown (c ∷ local_country) = c ∷ local_country

  unfoldable pub lookup_destination : Bytes → Bytes → Bytes
  lookup_destination [] local_country = unknown_destination
  lookup_destination (c ∷ phone_number) local_country =
      elim (strip_international_prefix (extract_digits (c ∷ phone_number))) [
        | some intl_digits ↦ match_prefix intl_digits
        | none ↦ local_or_unknown local_country
      ]

  -- Behind the longest prefix in the table, the loop finds nothing.
  match_from_longest :
      (n k : ℕ) (digits iso : Bytes)
      → 1 ≤ k
      → k ≤ n
      → table (take k digits) ≡ some iso
      → ((j : ℕ) → k < j → j ≤ n → table (take j digits) ≡ none)
      → match_from n digits ≡ iso
  unfolding match_from
  match_from_longest zero k digits iso l m known longer = absurd (omega (arith, l, m))
  match_from_longest (suc n) k digits iso l m known longer = elim (Bool-cases (k == suc n)) [
    | inl here ↦
        rw (match_from, sym (ap (λ i. table (take i digits)) (reached k n here)) ∙ known) refl
    | inr less ↦
        rw (match_from, longer (suc n) (passed k n m less) (omega arith))
          (match_from_longest n k digits iso l (omega (arith, passed k n m less)) known
            (λ j h g. longer j h (omega (arith, g))))
  ]

  -- A number with `+` or `00` in front is given the country of its longest prefix in the table, whatever
  -- stands between its digits and whatever the local country is.
  pub lookup_destination_longest :
      (phone_number local_country digits iso : Bytes) (k : ℕ)
      → strip_international_prefix (extract_digits phone_number) ≡ some digits
      → 1 ≤ k
      → k ≤ length digits
      → table (take k digits) ≡ some iso
      → ((j : ℕ) → k < j → j ≤ length digits → table (take j digits) ≡ none)
      → lookup_destination phone_number local_country ≡ iso
  unfolding lookup_destination match_prefix extract_digits strip_international_prefix
  lookup_destination_longest [] local_country digits iso k h l m known longer =
      absurd (ground (arith, h))
  lookup_destination_longest (c ∷ phone_number) local_country digits iso k h l m known longer =
      rw (lookup_destination, h) (match_from_longest (length digits) k digits iso l m known longer)
