-- ===== src/Examples/Sip.antt =====
-- Messages of SIP: a request with compact names and a body, and what headers in a body do.
use sip_exporter.Prelude.{
  ◌≡◌, refl, true, false, List, [], ◌∷◌, Option, none, some, Result, ok, err,
}
use sip_exporter.Text.{Bytes, codes, equal, has_prefix, index_byte, index, trim_space, split_crlf}
use sip_exporter.Sip.{
  Packet, SipError, no_from_tag, parse_uri, is_sip_method, has_method_prefix, sip_packet_parse,
  strip_scheme, extract_user, extract_host, uri_of, split_header, unfold_rest, extract_tag,
  search_start, tag_text, put_header, parse_headers, parse_first_line,
}
use sip_exporter.Sip.Lines.{message}
use sip_exporter.Sip.Message.{packet_of, sip_packet_parse-packet_of}
use sip_exporter.Sip.Tags.{answers, sip_packet_parse-answers}
use sip_exporter.Sip.Headers.{Address}
use sip_exporter.Sip.Fields.{Start, request_line, start_line, started}
use sip_exporter.Sip.Dialog.{Names, Fields, header_lines, with_fields, sip_packet_parse-with_fields}

abbrev options : Bytes
options = codes "OPTIONS sip:b SIP/2.0"

sip_packet_parse-answers_example : answers (sip_packet_parse options) ≡ true
unfolding is_sip_method has_method_prefix has_prefix equal
sip_packet_parse-answers_example = sip_packet_parse-answers options refl refl

abbrev headers : List Bytes
headers = codes "Via: SIP/2.0/UDP 10.0.0.1" ∷ codes "f: <sip:a@h>;tag=1" ∷ codes "CALL-ID: x1" ∷ []

sip_packet_parse-packet_of_example :
    sip_packet_parse (message (options ∷ headers) (codes "v=0"))
    ≡ some (packet_of options headers (codes "v=0"))
unfolding equal split_header unfold_rest split_crlf index_byte trim_space
sip_packet_parse-packet_of_example =
    sip_packet_parse-packet_of options headers (codes "v=0") refl refl

abbrev caller : Address
caller = record {
  display = codes "Alice ";
  secure = false;
  user = codes "alice";
  password = [];
  host = codes "10.0.0.1";
  port = codes ":5060";
  params = [];
  tag = codes "a1";
}

abbrev callee : Address
callee = record caller { display = []; user = codes "bob"; tag = [] }

abbrev names : Names
names = record {
  from = codes "f";
  to = codes "TO";
  call_id = codes "i";
  cseq = codes "cseq";
  content_type = codes "Content-Type";
}

abbrev invite : Fields
invite = record {
  from = caller;
  to = callee;
  call_id = codes "x1@h";
  cseq = record { id = codes "7"; method = codes "INVITE" };
  content_type = codes "application/sdp";
}

abbrev start : Start
start = request_line (codes "INVITE") (codes "sip:bob@h SIP/2.0")

abbrev via : List Bytes
via = codes "Via: SIP/2.0/UDP 10.0.0.1" ∷ []

sip_packet_parse-with_fields_example :
    sip_packet_parse (message (start_line start ∷ header_lines names invite via) (codes "v=0"))
    ≡ some (ok (record (with_fields invite (started start)) { body = codes "v=0" }))
unfolding equal split_header unfold_rest split_crlf index_byte trim_space
sip_packet_parse-with_fields_example =
    sip_packet_parse-with_fields start names invite via (codes "v=0") refl refl refl refl refl refl

-- A line of the body that reads as a header is taken for one: here the call is given the identifier
-- that stands in the body.
abbrev call_id_of : Option (Result SipError Packet) → Bytes
call_id_of none = []
call_id_of (some (err e)) = []
call_id_of (some (ok p)) = p.call_id

header_in_body :
    call_id_of (sip_packet_parse (message (options ∷ headers) (codes "Call-ID: y"))) ≡ codes "y"
unfolding sip_packet_parse parse_headers put_header parse_first_line parse_uri uri_of strip_scheme
    extract_user extract_host extract_tag search_start tag_text split_header unfold_rest split_crlf
    index index_byte has_prefix equal trim_space
header_in_body = refl

-- And a part of another message, as in message/sipfrag, makes the parser refuse the whole.
sipfrag_refused :
    sip_packet_parse (message (options ∷ headers) (codes "From: b")) ≡ some (err no_from_tag)
unfolding sip_packet_parse parse_headers put_header parse_first_line parse_uri uri_of strip_scheme
    extract_user extract_host extract_tag search_start tag_text split_header unfold_rest split_crlf
    index index_byte has_prefix equal trim_space
sipfrag_refused = refl
