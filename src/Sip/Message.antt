-- ===== src/Sip/Message.antt =====
-- Whole messages: the start line, the header lines and the body.
use sip_exporter.Prelude.{
  ℕ, ◌≡◌, refl, ap, ◌∙◌, subst, true, false, ◌&&◌, List, [], ◌∷◌, ◌++◌, some, Result, ◌>>=◌, ◌==◌,
  arith, nat_key, Bool-cases, inl, inr,
}
use sip_exporter.Text.{Bytes, has_prefix, grow_first, split_crlf}
use sip_exporter.Sip.{
  Packet, SipError, is_blank, is_folded, unfold_rest, unfold_headers, parse_headers,
  parse_first_line, has_method_prefix, is_sip_method, body_of, with_body, parse_lines,
  sip_packet_parse,
}
use sip_exporter.Sip.Lines.{
  message, are_lines, all_inert, split_crlf-message, body_of-message, unfold_rest-lines,
  parse_headers-inert, parse_headers-append, outcome,
}

equal_bytes : (x y : ℕ) → x == y ≡ true → x ≡ y
equal_bytes x y h = ground (arith, nat_key, h)

-- A first line that does not begin with a blank.
abbrev HasFirst : List Bytes → Type 0
HasFirst lines =
    (line : Bytes) × ((rest : List Bytes) × ((lines ≡ line ∷ rest) × (is_folded line ≡ false)))

grow_first-HasFirst :
    (x : ℕ) (lines : List Bytes) → is_blank x ≡ false → HasFirst (grow_first x lines)
grow_first-HasFirst x [] h = (x ∷ [], ([], (refl, h)))
grow_first-HasFirst x (line ∷ lines) h = (x ∷ line, (lines, (refl, h)))

split_crlf-HasFirst : (raw : Bytes) → is_folded raw ≡ false → HasFirst (split_crlf raw)
unfolding split_crlf
split_crlf-HasFirst [] h = ([], ([], (refl, refl)))
split_crlf-HasFirst (x ∷ []) h = (x ∷ [], ([], (refl, h)))
split_crlf-HasFirst (x ∷ y ∷ raw) h = elim (Bool-cases (x == 13 && y == 10)) [
  | inl ends ↦ rw (split_crlf, ends) ([], (split_crlf raw, (refl, refl)))
  | inr goes_on ↦ rw (split_crlf, goes_on) (grow_first-HasFirst x (split_crlf (y ∷ raw)) h)
]

unfold_headers-first :
    (line : Bytes) (rest : List Bytes)
    → is_folded line ≡ false
    → unfold_headers (line ∷ rest) ≡ (line ++ (unfold_rest rest).0) ∷ unfold_headers rest
unfolding unfold_rest
unfold_headers-first line rest h = ground (arith, h)

method_not_blank : (raw : Bytes) → is_sip_method raw ≡ true → is_folded raw ≡ false
unfolding is_sip_method has_method_prefix has_prefix
method_not_blank [] h = refl
method_not_blank (x ∷ raw) h = elim (Bool-cases (x == 32)) [
  | inl space ↦
      absurd
        (ground (arith, subst (λ c. is_sip_method (c ∷ raw) ≡ true) (equal_bytes x 32 space) h))
  | inr a ↦ elim (Bool-cases (x == 9)) [
    | inl tab ↦
        absurd (ground (arith, subst (λ c. is_sip_method (c ∷ raw) ≡ true) (equal_bytes x 9 tab) h))
    | inr b ↦ ground (arith, a, b)
  ]
]

sip_packet_parse-lines :
    (raw first : Bytes) (lines : List Bytes)
    → unfold_headers (split_crlf raw) ≡ first ∷ lines
    → sip_packet_parse raw ≡ some (parse_lines raw first lines)
unfolding sip_packet_parse
sip_packet_parse-lines raw first lines h = rw (sip_packet_parse, h) refl

-- What `isSIPMethod` lets through has a first line.
pub first_line :
    (raw : Bytes)
    → is_sip_method raw ≡ true
    → (first : Bytes) × ((lines : List Bytes) × (sip_packet_parse raw
          ≡ some (parse_lines raw first lines)))
first_line raw h =
    let (line, (rest, (split, first))) = split_crlf-HasFirst raw (method_not_blank raw h) in
    (
      line ++ (unfold_rest rest).0,
      (
        unfold_headers rest,
        sip_packet_parse-lines raw (line ++ (unfold_rest rest).0) (unfold_headers rest)
            (ap unfold_headers split ∙ unfold_headers-first line rest first),
      ),
    )

-- The start line, the header lines and the body, each read by itself.
abbrev pub packet_of : Bytes → List Bytes → Bytes → Result SipError Packet
packet_of first headers body = parse_first_line first >>= parse_headers headers >>= with_body body

parse_lines-inert :
    (raw first : Bytes) (headers inert : List Bytes)
    → all_inert inert ≡ true
    → parse_lines raw first (headers ++ inert) ≡ packet_of first headers (body_of raw)
parse_lines-inert raw first headers inert h = elim (outcome (parse_first_line first)) [
  | inl (e, refused) ↦ rw refused refl
  | inr (p, read) ↦ elim (outcome (parse_headers headers p)) [
    | inl (e, refused) ↦ rw (read, parse_headers-append headers inert p, refused) refl
    | inr (q, taken) ↦
        rw (read, parse_headers-append headers inert p, taken, parse_headers-inert inert q h) refl
  ]
]

-- A message is parsed into its start line and its header lines, and its body is what stands behind the
-- blank line, byte for byte. The lines have no CR, are not empty and do not begin with a blank, and
-- no line of the body reads as a header that the parser knows.
pub sip_packet_parse-packet_of :
    (first : Bytes) (headers : List Bytes) (body : Bytes)
    → are_lines (first ∷ headers) ≡ true
    → all_inert (unfold_headers ([] ∷ split_crlf body)) ≡ true
    → sip_packet_parse (message (first ∷ headers) body) ≡ some (packet_of first headers body)
sip_packet_parse-packet_of first headers body h inert =
    let raw = message (first ∷ headers) body in
    let rest = unfold_headers ([] ∷ split_crlf body) in
    sip_packet_parse-lines raw first (headers ++ rest) (
      ap unfold_headers (split_crlf-message (first ∷ headers) body h)
      ∙ ap (λ x. x.1) (unfold_rest-lines (first ∷ headers) (split_crlf body) h))
    ∙ ap some (
        parse_lines-inert raw first headers rest inert
        ∙ ap (packet_of first headers) (body_of-message first headers body h))
