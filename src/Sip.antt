-- ===== src/Sip.antt =====
-- internal/exporter/sipuri.go and the SIP parser of internal/exporter/exporter.go. A nil slice is the
-- empty text, save for a tag; the `none` of `sip_packet_parse` is a panic.
pub mod Uri
pub mod Lines
pub mod Headers
pub mod Message
pub mod Fields
pub mod Dialog
pub mod Tags
use sip_exporter.Prelude.{
  ℕ, zero, suc, ◌+◌, ◌-◌, Bool, true, false, not, ◌&&◌, ◌||◌, List, [], ◌∷◌, ◌++◌, Option, none,
  some, is_some, Result, ok, err, ◌>>=◌, ◌==◌, leb, ltb, if◌then◌else◌, length, take, drop, slice,
}
use sip_exporter.Prelude.Int.{ℤ, pos}
use sip_exporter.Text.{
  Bytes, codes, equal, equal_fold, to_lower, has_prefix, trim_prefix, index_byte, index, trim_left,
  trim_space, fields, split_byte, split_crlf, split_n, atoi,
}

abbrev pub sip_scheme_len : ℕ
sip_scheme_len = 4

abbrev pub sips_scheme_len : ℕ
sips_scheme_len = 5

unfoldable pub strip_scheme : Bytes → Bytes
strip_scheme uri =
    if leb sips_scheme_len (length uri) && equal_fold (take sips_scheme_len uri) (codes "sips:")
    then drop sips_scheme_len uri
    else if leb sip_scheme_len (length uri) && equal_fold (take sip_scheme_len uri) (codes "sip:")
    then drop sip_scheme_len uri
    else uri

-- `part[:i]` at the first byte `c`, or all of it.
abbrev pub until : Bytes → Option ℕ → Bytes
until part none = part
until part (some i) = take i part

abbrev pub cut_at : ℕ → Bytes → Bytes
cut_at c part = until part (index_byte c part)

abbrev pub strip_params : Bytes → Bytes
strip_params part = cut_at b';' part

-- `part[len(part)-1]`
abbrev pub last_byte : ℕ → Bytes → ℕ
last_byte x [] = x
last_byte x (y ∷ part) = last_byte y part

abbrev pub unquote : Bytes → Bytes
unquote [] = []
unquote (x ∷ []) = x ∷ []
unquote (x ∷ y ∷ part) =
    if x == 34 && last_byte y part == 34 then take (length part) (y ∷ part) else x ∷ y ∷ part

unfoldable pub extract_user : Bytes → Bytes
extract_user part = unquote (trim_space (cut_at b':' (strip_params part)))

abbrev pub bracketed : Bytes → Option Bytes
bracketed [] = none
bracketed (c ∷ part) =
    if c == b'['
    then elim (index_byte b']' (c ∷ part)) [ none ↦ none | some rb ↦ some (slice 1 rb (c ∷ part)) ]
    else none

abbrev pub host_of : Bytes → Option Bytes → Bytes
host_of host none = cut_at b':' host
host_of host (some inner) = inner

unfoldable pub extract_host : Bytes → Bytes
extract_host part = let host = strip_params part in host_of host (bracketed host)

-- The text between the angle brackets, or before the parameters.
abbrev pub between : Bytes → Option ℕ → Option ℕ → Bytes
between value none gt = strip_params value
between value (some lt) none = value
between value (some lt) (some gt) = if ltb lt gt then slice (lt + 1) gt value else value

unfoldable pub uri_of : Bytes → Bytes
uri_of value = between value (index_byte b'<' value) (index_byte b'>' value)

abbrev pub user_host : Bytes → Option ℕ → Bytes × Bytes
user_host uri none = ([], extract_host uri)
user_host uri (some at) = (extract_user (take at uri), extract_host (drop (at + 1) uri))

-- `ParseURI`: the user and the host.
unfoldable pub parse_uri : Bytes → Bytes × Bytes
parse_uri value = let uri = strip_scheme (uri_of value) in user_host uri (index_byte b'@' uri)

unfoldable pub has_method_prefix : Bytes → Bytes → Bool
has_method_prefix s method =
    has_prefix s method && equal (take 1 (drop (length method) s)) (b' ' ∷ [])

abbrev pub any_method : Bytes → List Bytes → Bool
any_method s [] = false
any_method s (m ∷ methods) = has_method_prefix s m || any_method s methods

abbrev pub sip_methods : List Bytes
sip_methods =
    codes "INVITE"
    ∷ codes "ACK"
    ∷ codes "BYE"
    ∷ codes "CANCEL"
    ∷ codes "OPTIONS"
    ∷ codes "REGISTER"
    ∷ codes "SUBSCRIBE"
    ∷ codes "NOTIFY"
    ∷ codes "PUBLISH"
    ∷ codes "INFO"
    ∷ codes "PRACK"
    ∷ codes "UPDATE"
    ∷ codes "MESSAGE"
    ∷ codes "REFER"
    ∷ codes "SIP/2.0"
    ∷ []

unfoldable pub is_sip_method : Bytes → Bool
is_sip_method s = any_method s sip_methods

abbrev pub is_sdp_content_type : Bytes → Bool
is_sdp_content_type content_type = is_some (index (to_lower content_type) (codes "application/sdp"))

abbrev pub is_vq_content_type : Bytes → Bool
is_vq_content_type content_type =
    is_some (index (to_lower content_type) (codes "application/vq-rtcpxr"))

-- `dto.From` and `dto.To`
pub record Party : Type 0 where
  pub user : Bytes
  pub addr : Bytes
  pub tag : Bytes

pub record CSeq : Type 0 where
  pub id : Bytes
  pub method : Bytes

pub record Packet : Type 0 where
  pub is_response : Bool
  pub response_status : Bytes
  pub method : Bytes
  pub from : Party
  pub to : Party
  pub call_id : Bytes
  pub cseq : CSeq
  pub session_expires : ℤ
  pub expires : ℤ
  pub user_agent : Bytes
  pub content_type : Bytes
  pub body : Bytes
  pub source_ip : Bytes

abbrev pub no_party : Party
no_party = record { user = []; addr = []; tag = [] }

-- `dto.Packet{}`
abbrev pub no_packet : Packet
no_packet = record {
  is_response = false;
  response_status = [];
  method = [];
  from = no_party;
  to = no_party;
  call_id = [];
  cseq = record { id = []; method = [] };
  session_expires = pos 0;
  expires = pos 0;
  user_agent = [];
  content_type = [];
  body = [];
  source_ip = [];
}

pub data SipError : Type 0 where
  malformed_status_line malformed_request_line no_from_tag no_cseq missing_call_id : SipError
  -- The slice of a tag out of its range, which is no error that the source returns.
  tag_out_of_range : SipError

unfoldable pub split_header : Bytes → Bytes × Bytes
split_header line = elim (index_byte b':' line) [
  | none ↦ ([], [])
  | some i ↦ (trim_space (take i line), trim_space (drop (i + 1) line))
]

abbrev pub compact_name : ℕ → Bytes
compact_name c =
    if c == b'f' || c == b'F'
    then codes "From"
    else if c == b't' || c == b'T'
    then codes "To"
    else if c == b'i' || c == b'I'
    then codes "Call-ID"
    else if c == b'c' || c == b'C'
    then codes "Content-Type"
    else c ∷ []

abbrev pub normalize_header_name : Bytes → Bytes
normalize_header_name [] = []
normalize_header_name (c ∷ []) = compact_name c
normalize_header_name (c ∷ d ∷ header) = c ∷ d ∷ header

abbrev pub is_blank : ℕ → Bool
is_blank c = c == 32 || c == 9

abbrev pub is_folded : Bytes → Bool
is_folded [] = false
is_folded (c ∷ line) = is_blank c

-- The text that the first lines continue, and the lines behind them.
unfoldable pub unfold_rest : List Bytes → Bytes × List Bytes
unfold_rest [] = ([], [])
unfold_rest (line ∷ rest) =
    let (more, lines) = unfold_rest rest in
    if is_folded line
    then (trim_left is_blank line ++ more, lines)
    else ([], (line ++ more) ∷ lines)

abbrev pub unfold_headers : List Bytes → List Bytes
unfold_headers lines = (unfold_rest lines).1

abbrev pub ends_tag : ℕ → Bool
ends_tag c = c == b';' || (c == 13 || (c == 10 || (c == 32 || c == b'>')))

unfoldable pub tag_text : Bytes → Bytes
tag_text [] = []
tag_text (c ∷ s) = let rest = tag_text s in if ends_tag c then [] else c ∷ rest

-- Where the search for the tag begins.
abbrev pub search_from : ℕ → Option ℕ → ℕ
search_from lt none = 0
search_from lt (some gt) = lt + gt

unfoldable pub search_start : Bytes → ℕ
search_start value = elim (index_byte b'<' value) [
  | none ↦ 0
  | some lt ↦ search_from lt (index_byte b'>' (drop lt value))
]

abbrev pub tag_prefix_len : ℕ
tag_prefix_len = 5

-- The slice `value[start:end]`, where the outer none is a start past the end of the value.
abbrev pub slice_tag : Bytes → ℕ → Option (Option Bytes)
slice_tag value start =
    if leb start (length value) then some (some (tag_text (drop start value))) else none

abbrev pub tag_at : Bytes → ℕ → Option ℕ → Option (Option Bytes)
tag_at value start none = some none
tag_at value start (some i) = slice_tag value (i + start + tag_prefix_len)

unfoldable pub extract_tag : Bytes → Option (Option Bytes)
extract_tag value =
    let start = search_start value in
    tag_at value start (index (to_lower (drop start value)) (codes ";tag="))

unfoldable pub extract_cseq : Bytes → Option CSeq
extract_cseq value = elim (fields value) [
  | [] ↦ none
  | id ∷ rest ↦ elim rest [ [] ↦ none | method ∷ more ↦ some (record { id = id; method = method }) ]
]

abbrev pub or_zero : Option ℤ → ℤ
or_zero none = pos 0
or_zero (some n) = n

abbrev pub first_part : List Bytes → Bytes
first_part [] = []
first_part (part ∷ parts) = part

unfoldable pub extract_session_expires : Bytes → ℤ
extract_session_expires value = or_zero (atoi (trim_space (first_part (split_byte b';' value))))

unfoldable pub extract_expires : Bytes → ℤ
extract_expires value = or_zero (atoi (trim_space value))

abbrev pub tag_or_empty : Option Bytes → Bytes
tag_or_empty none = []
tag_or_empty (some tag) = tag

abbrev pub first_set : Bytes → Bytes → Bytes
first_set [] value = value
first_set (c ∷ set) value = c ∷ set

abbrev pub party_of : Bytes → Bytes → Party
party_of tag value =
    let (user, addr) = parse_uri value in record { user = user; addr = addr; tag = tag }

abbrev pub put_from : Bytes → Packet → Option (Option Bytes) → Result SipError Packet
put_from value p none = err tag_out_of_range
put_from value p (some none) = err no_from_tag
put_from value p (some (some tag)) = ok (record p { from = party_of tag value })

abbrev pub put_to : Bytes → Packet → Option (Option Bytes) → Result SipError Packet
put_to value p none = err tag_out_of_range
put_to value p (some tag) = ok (record p { to = party_of (tag_or_empty tag) value })

-- The switch of `parseHeaders`.
unfoldable pub put_header : Bytes → Bytes → Packet → Result SipError Packet
put_header header value p =
    if equal_fold header (codes "From")
    then put_from value p (extract_tag value)
    else if equal_fold header (codes "To")
    then put_to value p (extract_tag value)
    else if equal_fold header (codes "Call-ID")
    then ok (record p { call_id = value })
    else if equal_fold header (codes "CSeq")
    then elim (extract_cseq value) [
      | none ↦ err no_cseq
      | some cseq ↦ ok (record p { cseq = cseq })
    ]
    else if equal_fold header (codes "Session-Expires")
    then ok (record p { session_expires = extract_session_expires value })
    else if equal_fold header (codes "Expires")
    then ok (record p { expires = extract_expires value })
    else if equal_fold header (codes "User-Agent")
    then ok (record p { user_agent = first_set p.user_agent value })
    else if equal_fold header (codes "Content-Type")
    then ok (record p { content_type = first_set p.content_type value })
    else ok p

abbrev pub parse_header_line : Bytes → Packet → Result SipError Packet
parse_header_line line p =
    let (header, value) = split_header line in put_header (normalize_header_name header) value p

-- `parseHeaders`, on the lines behind the first.
unfoldable pub parse_headers : List Bytes → Packet → Result SipError Packet
parse_headers [] p = ok p
parse_headers (line ∷ lines) p = elim (parse_header_line line p) [
  | err e ↦ err e
  | ok q ↦ parse_headers lines q
]

abbrev pub min_response_status_len : ℕ
min_response_status_len = 3

-- The status line or the request line.
unfoldable pub parse_first_line : Bytes → Result SipError Packet
parse_first_line line =
    let rest = trim_prefix line (codes "SIP/2.0 ") in
    if has_prefix line (codes "SIP/2.0")
    then (if ltb (length rest) min_response_status_len
        then err malformed_status_line
        else ok (record no_packet {
          is_response = true;
          response_status = take min_response_status_len rest;
        }))
    else elim (index_byte b' ' line) [
      | none ↦ err malformed_request_line
      | some i ↦ ok (record no_packet { method = trim_space (take i line) })
    ]

abbrev pub body_at : Bytes → Option ℕ → Bytes
body_at raw none = []
body_at raw (some i) = drop (i + 4) raw

abbrev pub body_of : Bytes → Bytes
body_of raw = body_at raw (index raw (13 ∷ 10 ∷ 13 ∷ 10 ∷ []))

-- A packet with a Call-ID is given its body.
abbrev pub with_body : Bytes → Packet → Result SipError Packet
with_body body p = elim p.call_id [
  | [] ↦ err missing_call_id
  | c ∷ call_id ↦ ok (record p { body = body })
]

abbrev pub parse_lines : Bytes → Bytes → List Bytes → Result SipError Packet
parse_lines raw first lines =
    parse_first_line first >>= (λ p. parse_headers lines p >>= with_body (body_of raw))

-- `sipPacketParse`
unfoldable pub sip_packet_parse : Bytes → Option (Result SipError Packet)
sip_packet_parse raw = elim (unfold_headers (split_crlf raw)) [
  | [] ↦ none
  | first ∷ lines ↦ some (parse_lines raw first lines)
]
