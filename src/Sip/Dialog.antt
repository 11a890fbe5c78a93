-- ===== src/Sip/Dialog.antt =====
-- The messages of a dialog: a start line, From, To, Call-ID and CSeq, further lines and a body.
use mathlib.Core.List.{append_assoc}
use sip_exporter.Prelude.{
  ◌≡◌, refl, ap, ◌∙◌, subst, Bool, true, false, ◌&&◌, List, [], ◌∷◌, ◌++◌, some, ok, ◌>>=◌, take,
  arith,
}
use sip_exporter.Text.{Bytes, codes, trim_space, split_crlf}
use sip_exporter.Text.Laws.{lacks_space, is_set, trim_space-words, trim_space-blank}
use sip_exporter.Sip.{
  Packet, CSeq, normalize_header_name, tag_or_empty, party_of, parse_header_line, parse_headers,
  with_body, unfold_headers, sip_packet_parse,
}
use sip_exporter.Sip.Uri.{is_token, is_token-lacks_space}
use sip_exporter.Sip.Lines.{message, are_lines, all_inert, parse_headers-inert}
use sip_exporter.Sip.Message.{sip_packet_parse-packet_of}
use sip_exporter.Sip.Headers.{
  field_line, tag_of, Address, address_text, party, is_clean, address_tag, address_uri,
  address_trimmed,
}
use sip_exporter.Sip.Fields.{
  spells, header_line, put_from_header, put_to_header, put_call_id, put_cseq, put_content_type,
  cseq_words, Start, request_line, status_line, start_line, is_start, started,
  parse_first_line-start_line,
}

-- The spelling of the header names, and what the lines say.
pub record Names : Type 0 where
  pub from : Bytes
  pub to : Bytes
  pub call_id : Bytes
  pub cseq : Bytes
  pub content_type : Bytes

pub record Fields : Type 0 where
  pub from : Address
  pub to : Address
  pub call_id : Bytes
  pub cseq : CSeq
  pub content_type : Bytes

abbrev pub are_names : Names → Bool
are_names n =
    spells (codes "From") n.from
    && (spells (codes "To") n.to
        && (spells (codes "Call-ID") n.call_id
            && (spells (codes "CSeq") n.cseq && spells (codes "Content-Type") n.content_type)))

-- The tag of From and the identifiers are not empty, no identifier has white space.
abbrev pub are_fields : Fields → Bool
are_fields f =
    is_clean f.from
    && (is_set f.from.tag
        && (is_clean f.to
            && (is_set f.call_id
                && (lacks_space f.call_id
                    && (is_set f.cseq.id
                        && (is_set f.cseq.method
                            && (is_token f.cseq.id
                                && (is_token f.cseq.method && lacks_space f.content_type))))))))

abbrev pub header_lines : Names → Fields → List Bytes → List Bytes
header_lines n f other =
    field_line n.from (address_text f.from)
    ∷ field_line n.to (address_text f.to)
    ∷ field_line n.call_id f.call_id
    ∷ field_line n.cseq (f.cseq.id ++ 32 ∷ f.cseq.method)
    ∷ field_line n.content_type f.content_type
    ∷ other

abbrev pub with_fields : Fields → Packet → Packet
with_fields f p = record p {
  from = party f.from;
  to = party f.to;
  call_id = f.call_id;
  cseq = f.cseq;
  content_type = f.content_type;
}

parse_headers-more :
    (line : Bytes) (lines : List Bytes) (p q : Packet)
    → parse_header_line line p ≡ ok q
    → parse_headers (line ∷ lines) p ≡ parse_headers lines q
unfolding parse_headers
parse_headers-more line lines p q h = rw (parse_headers, h) refl

tag_set : (tag : Bytes) → is_set tag ≡ true → tag_of tag ≡ some tag
tag_set [] h = absurd (ground (arith, h))
tag_set (c ∷ tag) h = refl

tag_kept : (tag : Bytes) → tag_or_empty (tag_of tag) ≡ tag
tag_kept [] = refl
tag_kept (c ∷ tag) = refl

address_party : (a : Address) → is_clean a ≡ true → party_of a.tag (address_text a) ≡ party a
address_party a h = ap (λ x. record { user = x.0; addr = x.1; tag = a.tag }) (address_uri a h)

from_line :
    (name : Bytes) (a : Address) (p : Packet)
    → spells (codes "From") name ≡ true
    → is_clean a ≡ true
    → is_set a.tag ≡ true
    → parse_header_line (field_line name (address_text a)) p ≡ ok (record p { from = party a })
from_line name a p h c t =
    header_line name (address_text a) (codes "From") p h (address_trimmed a c)
    ∙ (put_from_header (normalize_header_name name) (address_text a) a.tag p (ground (arith, h))
          (address_tag a c ∙ ap some (tag_set a.tag t))
        ∙ ap (λ x. ok (record p { from = x })) (address_party a c))

to_line :
    (name : Bytes) (a : Address) (p : Packet)
    → spells (codes "To") name ≡ true
    → is_clean a ≡ true
    → parse_header_line (field_line name (address_text a)) p ≡ ok (record p { to = party a })
to_line name a p h c =
    header_line name (address_text a) (codes "To") p h (address_trimmed a c)
    ∙ (put_to_header (normalize_header_name name) (address_text a) (tag_of a.tag) p
          (ground (arith, h)) (address_tag a c)
        ∙ (ap (λ x. ok (record p { to = party_of x (address_text a) })) (tag_kept a.tag)
            ∙ ap (λ x. ok (record p { to = x })) (address_party a c)))

call_id_line :
    (name call_id : Bytes) (p : Packet)
    → spells (codes "Call-ID") name ≡ true
    → lacks_space call_id ≡ true
    → parse_header_line (field_line name call_id) p ≡ ok (record p { call_id = call_id })
call_id_line name call_id p h c =
    header_line name call_id (codes "Call-ID") p h (trim_space-blank call_id c)
    ∙ put_call_id (normalize_header_name name) call_id p (ground (arith, h))

content_type_line :
    (name value : Bytes) (p : Packet)
    → spells (codes "Content-Type") name ≡ true
    → lacks_space value ≡ true
    → p.content_type ≡ []
    → parse_header_line (field_line name value) p ≡ ok (record p { content_type = value })
content_type_line name value p h c none_yet =
    header_line name value (codes "Content-Type") p h (trim_space-blank value c)
    ∙ put_content_type (normalize_header_name name) value p (ground (arith, h)) none_yet

cseq_set : (id : Bytes) → is_set (id ++ 32 ∷ []) ≡ true
cseq_set [] = refl
cseq_set (x ∷ id) = refl

cseq_first :
    (id : Bytes)
    → is_set id ≡ true
    → is_token id ≡ true
    → lacks_space (take 1 (id ++ 32 ∷ [])) ≡ true
cseq_first [] s h = absurd (ground (arith, s))
cseq_first (x ∷ id) s h = ground (arith, h)

cseq_trimmed :
    (id method : Bytes)
    → is_set id ≡ true
    → is_token id ≡ true
    → is_token method ≡ true
    → is_set method ≡ true
    → trim_space (32 ∷ id ++ 32 ∷ method) ≡ id ++ 32 ∷ method
cseq_trimmed id method s h g t =
    let same = append_assoc id (32 ∷ []) method in
    subst (λ v. trim_space (32 ∷ v) ≡ v) same
      (trim_space-words (id ++ 32 ∷ []) method (cseq_set id) (cseq_first id s h) t
        (is_token-lacks_space method g))

cseq_line :
    (name : Bytes) (c : CSeq) (p : Packet)
    → spells (codes "CSeq") name ≡ true
    → is_set c.id ≡ true
    → is_set c.method ≡ true
    → is_token c.id ≡ true
    → is_token c.method ≡ true
    → parse_header_line (field_line name (c.id ++ 32 ∷ c.method)) p ≡ ok (record p { cseq = c })
cseq_line name c p h s t i m =
    header_line name (c.id ++ 32 ∷ c.method) (codes "CSeq") p h (cseq_trimmed c.id c.method s i m t)
    ∙ put_cseq (normalize_header_name name) (c.id ++ 32 ∷ c.method) c p (ground (arith, h))
        (cseq_words c.id c.method s t i m)

both : {a b : Bool} → a && b ≡ true → (a ≡ true) × (b ≡ true)
both {a = true} h = (refl, h)
both {a = false} h = absurd (ground (arith, h))

parse_headers-header_lines :
    (n : Names) (f : Fields) (other : List Bytes) (p : Packet)
    → are_names n ≡ true
    → are_fields f ≡ true
    → all_inert other ≡ true
    → p.content_type ≡ []
    → parse_headers (header_lines n f other) p ≡ ok (with_fields f p)
parse_headers-header_lines n f other p h g inert none_yet =
    let p1 : Packet = record p { from = party f.from } in
    let p2 : Packet = record p1 { to = party f.to } in
    let p3 : Packet = record p2 { call_id = f.call_id } in
    let p4 : Packet = record p3 { cseq = f.cseq } in
    let p5 : Packet = record p4 { content_type = f.content_type } in
    let (n_from, h1) = both h in
    let (n_to, h2) = both h1 in
    let (n_call_id, h3) = both h2 in
    let (n_cseq, n_content_type) = both h3 in
    let (from, g1) = both g in
    let (from_tag, g2) = both g1 in
    let (to, g3) = both g2 in
    let (call_id_set, g4) = both g3 in
    let (call_id, g5) = both g4 in
    let (id_set, g6) = both g5 in
    let (method_set, g7) = both g6 in
    let (id, g8) = both g7 in
    let (method, content_type) = both g8 in
    parse_headers-more _ _ p p1 (from_line n.from f.from p n_from from from_tag)
    ∙ (parse_headers-more _ _ p1 p2 (to_line n.to f.to p1 n_to to)
        ∙ (parse_headers-more _ _ p2 p3 (call_id_line n.call_id f.call_id p2 n_call_id call_id)
            ∙ (parse_headers-more _ _ p3 p4
                  (cseq_line n.cseq f.cseq p3 n_cseq id_set method_set id method)
                ∙ (parse_headers-more _ _ p4 p5 (
                      content_type_line n.content_type f.content_type p4 n_content_type content_type
                        none_yet)
                    ∙ parse_headers-inert other p5 inert))))

started_type : (s : Start) → (started s).content_type ≡ []
started_type (request_line method uri) = refl
started_type (status_line status reason) = refl

with_call_id :
    (body : Bytes) (p : Packet)
    → is_set p.call_id ≡ true
    → with_body body p ≡ ok (record p { body = body })
with_call_id body p h = ground (arith, h)

-- What is written as a message is parsed back: the method or the status, the user, the host and the tag
-- of From and of To, the Call-ID, CSeq, the content type and the body. The header names are spelled in
-- any case or in their compact form. The lines have no CR, are not empty and do not begin
-- with a blank, the other lines and those of the body read as no header that the parser knows, and the
-- parts have none of the marks that separate them.
pub sip_packet_parse-with_fields :
    (s : Start) (n : Names) (f : Fields) (other : List Bytes) (body : Bytes)
    → is_start s ≡ true
    → are_names n ≡ true
    → are_fields f ≡ true
    → are_lines (start_line s ∷ header_lines n f other) ≡ true
    → all_inert other ≡ true
    → all_inert (unfold_headers ([] ∷ split_crlf body)) ≡ true
    → sip_packet_parse (message (start_line s ∷ header_lines n f other) body)
      ≡ some (ok (record (with_fields f (started s)) { body = body }))
sip_packet_parse-with_fields s n f other body st h g lines inert quiet =
    sip_packet_parse-packet_of (start_line s) (header_lines n f other) body lines quiet
    ∙ ap some (
        ap (λ r. r >>= parse_headers (header_lines n f other) >>= with_body body)
          (parse_first_line-start_line s st)
        ∙ (ap (λ r. r >>= with_body body)
              (parse_headers-header_lines n f other (started s) h g inert (started_type s))
            ∙ with_call_id body (with_fields f (started s)) (ground (arith, g))))
