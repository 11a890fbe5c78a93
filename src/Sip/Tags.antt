-- ===== src/Sip/Tags.antt =====
-- The slices of tags, against the length of the value.
use sip_exporter.Prelude.{
  ℕ, suc, ◌+◌, ◌-◌, ◌≡◌, ◌≤◌, refl, ap, sym, ◌∙◌, Bool, true, false, ◌&&◌, List, [], ◌∷◌, Option,
  none, some, is_some, Result, ok, err, ◌>>=◌, ltb, length, length-drop, drop, arith, Option-cases,
  inl, inr,
}
use sip_exporter.Text.{Bytes, codes, to_lower, has_prefix, index}
use sip_exporter.Sip.{
  Packet, SipError, tag_out_of_range, search_start, tag_at, extract_tag, put_from, put_to,
  put_header, split_header, normalize_header_name, parse_header_line, parse_headers,
  parse_first_line, with_body, body_of, is_sip_method, sip_packet_parse,
}
use sip_exporter.Sip.Lines.{outcome}
use sip_exporter.Sip.Message.{first_line}

has_prefix-fits : (s p : Bytes) → has_prefix s p ≡ true → length p ≤ length s
unfolding has_prefix
has_prefix-fits s [] h = omega arith
has_prefix-fits [] (y ∷ p) h = absurd (ground (arith, h))
has_prefix-fits (x ∷ s) (y ∷ p) h = ground (arith, h, has_prefix-fits s p)

-- What is found stands within the text.
index-fits : (s p : Bytes) (i : ℕ) → index s p ≡ some i → i + length p ≤ length s
unfolding index
index-fits [] p i h = ground (arith, h, has_prefix-fits [] p)
index-fits (x ∷ s) p i h = elim (Option-cases (index s p)) [
  | inl absent ↦ ground (arith, h, absent, has_prefix-fits (x ∷ s) p)
  | inr (j, later) ↦ ground (arith, h, later, index-fits s p j later, has_prefix-fits (x ∷ s) p)
]

length-lower : (s : Bytes) → length (to_lower s) ≡ length s
length-lower [] = refl
length-lower (x ∷ s) = ap suc (length-lower s)

moved : (i start size : ℕ) → i + 5 ≤ size - start → i + start + 5 ≤ size
moved i start size h = omega (arith, h)

extract_tag_fits : (value : Bytes) → is_some (extract_tag value) ≡ true
unfolding extract_tag
extract_tag_fits value =
    let start = search_start value in
    let searched = to_lower (drop start value) in
    elim (Option-cases (index searched (codes ";tag="))) [
      | inl absent ↦ ap (λ o. is_some (tag_at value start o)) absent
      | inr (i, found) ↦
          let fits = index-fits searched (codes ";tag=") i found in
          let within =
            moved i start (length value)
              (omega (arith, fits, length-lower (drop start value), length-drop start value)) in
          ap (λ o. is_some (tag_at value start o)) found ∙ ground (arith, within)
    ]

-- A parse that ends, with a packet or with an error of the source.
abbrev pub is_answer : Result SipError Packet → Bool
is_answer (ok p) = true
is_answer (err tag_out_of_range) = false
is_answer (err e) = true

abbrev pub answers : Option (Result SipError Packet) → Bool
answers none = false
answers (some r) = is_answer r

put_from_answers :
    (value : Bytes) (p : Packet) (tag : Option (Option Bytes))
    → is_some tag ≡ true
    → is_answer (put_from value p tag) ≡ true
put_from_answers value p none h = absurd (ground (arith, h))
put_from_answers value p (some none) h = refl
put_from_answers value p (some (some tag)) h = refl

put_to_answers :
    (value : Bytes) (p : Packet) (tag : Option (Option Bytes))
    → is_some tag ≡ true
    → is_answer (put_to value p tag) ≡ true
put_to_answers value p none h = absurd (ground (arith, h))
put_to_answers value p (some tag) h = refl

put_header_answers :
    (header value : Bytes) (p : Packet) → is_answer (put_header header value p) ≡ true
unfolding put_header
put_header_answers header value p = ground (
  arith,
  put_from_answers value p (extract_tag value) (extract_tag_fits value),
  put_to_answers value p (extract_tag value) (extract_tag_fits value),
)

parse_headers_answers : (lines : List Bytes) (p : Packet) → is_answer (parse_headers lines p) ≡ true
unfolding parse_headers
parse_headers_answers [] p = refl
parse_headers_answers (line ∷ lines) p =
    let (header, value) = split_header line in
    let this = put_header_answers (normalize_header_name header) value p in
    elim (outcome (parse_header_line line p)) [
      | inl (e, refused) ↦ rw (parse_headers, refused) (ap is_answer (sym refused) ∙ this)
      | inr (q, taken) ↦ rw (parse_headers, taken) (parse_headers_answers lines q)
    ]

parse_first_line_answers : (line : Bytes) → is_answer (parse_first_line line) ≡ true
unfolding parse_first_line
parse_first_line_answers line = ground arith

with_body_answers : (body : Bytes) (p : Packet) → is_answer (with_body body p) ≡ true
with_body_answers body p = ground arith

bind_answers :
    (r : Result SipError Packet) (f : Packet → Result SipError Packet)
    → is_answer r ≡ true
    → ((p : Packet) → is_answer (f p) ≡ true)
    → is_answer (r >>= f) ≡ true
bind_answers (ok p) f h g = g p
bind_answers (err e) f h g = h

abbrev pub is_ascii : Bytes → Bool
is_ascii [] = true
is_ascii (x ∷ s) = ltb x 128 && is_ascii s

-- An ASCII payload that `isSIPMethod` lets through is parsed with a message or an error of the source:
-- there is a first line to read, and the slice of every tag lies within the value of its header, in
-- every line of the message.
pub sip_packet_parse-answers :
    (raw : Bytes)
    → is_ascii raw ≡ true
    → is_sip_method raw ≡ true
    → answers (sip_packet_parse raw) ≡ true
sip_packet_parse-answers raw ascii h =
    let (first, (lines, parsed)) = first_line raw h in
    ap answers parsed
    ∙ bind_answers (parse_first_line first) _ (parse_first_line_answers first) (λ p.
      bind_answers (parse_headers lines p) _ (parse_headers_answers lines p)
        (with_body_answers (body_of raw)))
