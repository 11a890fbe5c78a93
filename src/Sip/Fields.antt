-- ===== src/Sip/Fields.antt =====
-- Single lines of a message: the start line, and the header lines the parser knows.
use sip_exporter.Prelude.{
  Option, ◌≡◌, refl, ap, Bool, true, false, ◌&&◌, [], ◌∷◌, ◌++◌, some, ok, ◌==◌, ltb, length, take,
  arith,
}
use sip_exporter.Text.{Bytes, codes, to_lower, equal, equal_fold, has_prefix, trim_space}
use sip_exporter.Text.Laws.{
  is_set, take-append, index_byte-append, trim_space-id, fields-words, equal_lem,
}
use sip_exporter.Sip.{
  Packet, CSeq, no_packet, normalize_header_name, extract_tag, extract_cseq, tag_or_empty, party_of,
  put_header, parse_header_line, parse_first_line,
}
use sip_exporter.Sip.Uri.{is_token, is_token-lacks, is_token-lacks_space}
use sip_exporter.Sip.Headers.{field_line, split_header-field_line}

-- A name spells a header: in any case, or in its compact form.
abbrev pub spells : Bytes → Bytes → Bool
spells header name = is_token name && equal_fold (normalize_header_name name) header

spelled : (h a b : Bytes) → equal_fold h a ≡ true → equal_fold h b ≡ equal_fold a b
spelled h a b e = ap (λ l. equal l (to_lower b)) (equal_lem (to_lower h) (to_lower a) e)

pub header_line :
    (name value header : Bytes) (p : Packet)
    → spells header name ≡ true
    → trim_space (32 ∷ value) ≡ value
    → parse_header_line (field_line name value) p ≡ put_header (normalize_header_name name) value p
header_line name value header p h g =
    ap (λ x. put_header (normalize_header_name x.0) x.1 p)
      (split_header-field_line name value (ground (arith, h)) g)

pub put_from_header :
    (h value : Bytes) (tag : Bytes) (p : Packet)
    → equal_fold h (codes "From") ≡ true
    → extract_tag value ≡ some (some tag)
    → put_header h value p ≡ ok (record p { from = party_of tag value })
unfolding put_header
put_from_header h value tag p e t = rw (put_header, e, t) refl

pub put_to_header :
    (h value : Bytes) (tag : Option Bytes) (p : Packet)
    → equal_fold h (codes "To") ≡ true
    → extract_tag value ≡ some tag
    → put_header h value p ≡ ok (record p { to = party_of (tag_or_empty tag) value })
unfolding put_header equal
put_to_header h value tag p e t =
    rw (put_header, spelled h (codes "To") (codes "From") e, e, t) refl

pub put_call_id :
    (h value : Bytes) (p : Packet)
    → equal_fold h (codes "Call-ID") ≡ true
    → put_header h value p ≡ ok (record p { call_id = value })
unfolding put_header equal
put_call_id h value p e =
    rw
      (
        put_header,
        spelled h (codes "Call-ID") (codes "From") e,
        spelled h (codes "Call-ID") (codes "To") e,
        e,
      )
      refl

pub put_cseq :
    (h value : Bytes) (cseq : CSeq) (p : Packet)
    → equal_fold h (codes "CSeq") ≡ true
    → extract_cseq value ≡ some cseq
    → put_header h value p ≡ ok (record p { cseq = cseq })
unfolding put_header equal
put_cseq h value cseq p e c =
    rw
      (
        put_header,
        spelled h (codes "CSeq") (codes "From") e,
        spelled h (codes "CSeq") (codes "To") e,
        spelled h (codes "CSeq") (codes "Call-ID") e,
        e,
        c,
      )
      refl

pub put_content_type :
    (h value : Bytes) (p : Packet)
    → equal_fold h (codes "Content-Type") ≡ true
    → p.content_type ≡ []
    → put_header h value p ≡ ok (record p { content_type = value })
unfolding put_header equal
put_content_type h value p e none_yet =
    let other = spelled h (codes "Content-Type") in
    rw
      (
        put_header,
        other (codes "From") e,
        other (codes "To") e,
        other (codes "Call-ID") e,
        other (codes "CSeq") e,
        other (codes "Session-Expires") e,
        other (codes "Expires") e,
        other (codes "User-Agent") e,
        e,
        none_yet,
      )
      refl

pub cseq_words :
    (id method : Bytes)
    → is_set id ≡ true
    → is_set method ≡ true
    → is_token id ≡ true
    → is_token method ≡ true
    → extract_cseq (id ++ 32 ∷ method) ≡ some (record { id = id; method = method })
unfolding extract_cseq
cseq_words id method s t h g =
    rw
      (
        extract_cseq,
        fields-words id method s t (is_token-lacks_space id h) (is_token-lacks_space method g),
      )
      refl

-- The start line of a request or of a response.
pub data Start : Type 0 where
  request_line : Bytes → Bytes → Start
  status_line : Bytes → Bytes → Start

abbrev pub start_line : Start → Bytes
start_line (request_line method uri) = method ++ 32 ∷ uri
start_line (status_line status reason) = codes "SIP/2.0 " ++ (status ++ reason)

abbrev pub is_start : Start → Bool
is_start (request_line method uri) = is_token method
is_start (status_line status reason) = length status == 3

abbrev pub started : Start → Packet
started (request_line method uri) = record no_packet { method = method }
started (status_line status reason) = record no_packet {
  is_response = true;
  response_status = status;
}

not_status :
    (method uri : Bytes)
    → is_token method ≡ true
    → has_prefix (method ++ 32 ∷ uri) (codes "SIP/2.0") ≡ false
unfolding has_prefix
not_status [] uri h = refl
not_status (a ∷ []) uri h = ground arith
not_status (a ∷ b ∷ []) uri h = ground arith
not_status (a ∷ b ∷ c ∷ []) uri h = ground arith
not_status (a ∷ b ∷ c ∷ d ∷ method) uri h = ground (arith, h)

take_three : (s t : Bytes) → length s == 3 ≡ true → take 3 (s ++ t) ≡ s
take_three [] t h = absurd (ground (arith, h))
take_three (a ∷ []) t h = absurd (ground (arith, h))
take_three (a ∷ b ∷ []) t h = absurd (ground (arith, h))
take_three (a ∷ b ∷ c ∷ []) t h = refl
take_three (a ∷ b ∷ c ∷ d ∷ s) t h = absurd (ground (arith, h))

three : (s t : Bytes) → length s == 3 ≡ true → ltb (length (s ++ t)) 3 ≡ false
three [] t h = absurd (ground (arith, h))
three (a ∷ []) t h = absurd (ground (arith, h))
three (a ∷ b ∷ []) t h = absurd (ground (arith, h))
three (a ∷ b ∷ c ∷ s) t h = ground arith

pub parse_first_line-start_line :
    (s : Start) → is_start s ≡ true → parse_first_line (start_line s) ≡ ok (started s)
unfolding parse_first_line has_prefix
parse_first_line-start_line (request_line method uri) h =
    rw
      (
        parse_first_line,
        not_status method uri h,
        index_byte-append 32 method uri (is_token-lacks 32 method refl h),
        take-append method (32 ∷ uri),
        trim_space-id method (is_token-lacks_space method h),
      )
      refl
parse_first_line-start_line (status_line status reason) h = rw (three status reason h) (
    ap (λ t. ok (record no_packet { is_response = true; response_status = t }))
      (take_three status reason h))
