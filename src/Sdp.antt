-- ===== src/Sdp.antt =====
-- internal/sdp/parser.go: the audio media of a session description. The port and the payload type
-- are read as in the source; a `none` of `parse_loop` means that it ran out of fuel.
pub mod Section
pub mod Loop
pub mod Sections
pub mod Active
use sip_exporter.Prelude.{
  ℕ, zero, suc, ◌+◌, ◌-◌, Bool, true, false, not, ◌&&◌, ◌||◌, List, [], ◌∷◌, ◌++◌, Option, none,
  some, is_some, ite, ◌==◌, leb, ltb, if◌then◌else◌, length, take, drop, get_elem?, nat_key,
}
use sip_exporter.Prelude.Int.{ℤ, pos, negsuc}
use sip_exporter.Prelude.Assoc.{insert}
use sip_exporter.Text.{
  Bytes, codes, equal, has_prefix, trim_prefix, index_byte, trim_space, fields, split_byte, split_n,
  atoi, parse_uint_32, is_digit,
}

abbrev pub media_audio : Bytes
media_audio = codes "audio"

abbrev pub ip_ver_ipv4 : Bytes
ip_ver_ipv4 = codes "IP4"

abbrev pub ip_null_hold : Bytes
ip_null_hold = codes "0.0.0.0"

abbrev pub conn_fields : ℕ
conn_fields = 3

abbrev pub enc_min_parts : ℕ
enc_min_parts = 2

abbrev pub enc_max_parts : ℕ
enc_max_parts = 3

abbrev pub pt_enc_parts : ℕ
pt_enc_parts = 2

pub record Media : Type 0 where
  pub ip : Bytes
  pub port : ℕ
  pub rtcp_port : ℕ
  pub rtcp_addr : Bytes
  pub rtcp_mux : Bool
  pub codecs : List (ℕ × Bytes)
  pub clock_rates : List (ℕ × ℕ)
  pub srtp : Bool

-- The field `i` of a line, the empty text where a guard has excluded it.
abbrev pub field : List Bytes → ℕ → Bytes
field [] i = []
field (f ∷ fs) zero = f
field (f ∷ fs) (suc i) = field fs i

-- A number in `lo` to `hi`, as an int that is tested.
abbrev pub in_range : ℕ → ℕ → Option ℤ → Option ℕ
in_range lo hi none = none
in_range lo hi (some (negsuc n)) = none
in_range lo hi (some (pos n)) = if leb lo n && leb n hi then some n else none

-- `extractConnIP`: the address and the version.
unfoldable pub extract_conn_ip : Bytes → Bytes × Bytes
extract_conn_ip line =
    let fs = fields (trim_prefix line (codes "c=")) in
    let addr = field fs 2 in
    if ltb (length fs) conn_fields
    then ([], [])
    else (elim (index_byte b'/' addr) [ none ↦ addr | some i ↦ take i addr ], field fs 1)

unfoldable pub extract_origin_ip : Bytes → Bytes
extract_origin_ip line =
    let fs = fields (trim_prefix line (codes "o=")) in
    if leb 6 (length fs) && equal (field fs 3) (codes "IN") then field fs 5 else []

-- `detectIPVer(ip) == ipVerIPv4`; the other answers are told apart nowhere.
unfoldable pub is_ipv4_text : Bytes → Bool
is_ipv4_text [] = false
is_ipv4_text (c ∷ []) = is_digit c || c == b'.'
is_ipv4_text (c ∷ d ∷ ip) = (is_digit c || c == b'.') && is_ipv4_text (d ∷ ip)

-- `parseRtpmap`: the payload type, the codec and the clock rate.
unfoldable pub parse_rtpmap : Bytes → Option (ℕ × Bytes × ℕ)
parse_rtpmap line =
    let pt_enc = split_n b' ' (pt_enc_parts - 1) (trim_prefix line (codes "a=rtpmap:")) in
    let enc_parts = split_n b'/' (enc_max_parts - 1) (trim_space (field pt_enc 1)) in
    if not (length pt_enc == pt_enc_parts)
    then none
    else elim (in_range 0 127 (atoi (trim_space (field pt_enc 0)))) [
      | none ↦ none
      | some pt ↦
          if ltb (length enc_parts) enc_min_parts
          then none
          else elim (parse_uint_32 (field enc_parts 1)) [
            | none ↦ none
            | some clock ↦ some (pt, field enc_parts 0, clock)
          ]
    ]

-- `parseRTCPAttr`
unfoldable pub parse_rtcp_attr : Bytes → ℕ × Bytes
parse_rtcp_attr line =
    let fs = fields (trim_prefix line (codes "a=rtcp:")) in
    let addr =
      if leb 4 (length fs) && equal (field fs 1) (codes "IN") && equal (field fs 2) ip_ver_ipv4
      then field fs 3
      else [] in
    elim (in_range 1 65535 (atoi (field fs 0))) [ none ↦ (0, []) | some p ↦ (p, addr) ]

abbrev pub is_media_line : Bytes → Bool
is_media_line raw = has_prefix (trim_space raw) (codes "m=")

-- The variables of the loop of `parseMedia`.
pub record Scan : Type 0 where
  pub media : Media
  pub inactive : Bool
  pub media_ip : Bytes

abbrev pub with_rtpmap : Scan → Option (ℕ × Bytes × ℕ) → Scan
with_rtpmap s none = s
with_rtpmap s (some (pt, codec, clock)) = record s {
  media = record s.media {
    codecs = insert pt codec s.media.codecs;
    clock_rates = insert pt clock s.media.clock_rates;
  };
}

-- The cases of the switch behind `m=`.
unfoldable pub scan_line : Scan → Bytes → Scan
scan_line s line =
    if has_prefix line (codes "c=")
    then record s { media_ip = (extract_conn_ip line).0 }
    else if equal line (codes "a=inactive")
    then record s { inactive = true }
    else if has_prefix line (codes "a=fingerprint") || has_prefix line (codes "a=crypto:")
    then record s { media = record s.media { srtp = true } }
    else if has_prefix line (codes "a=rtpmap:")
    then with_rtpmap s (parse_rtpmap line)
    else if has_prefix line (codes "a=rtcp:")
    then (let (port, addr) = parse_rtcp_attr line in
        record s { media = record s.media { rtcp_port = port; rtcp_addr = addr } })
    else if equal line (codes "a=rtcp-mux")
    then record s { media = record s.media { rtcp_mux = true } }
    else s

-- The loop from `lines[start + 1]` on: its variables, the lines that it took, and whether a line
-- `m=` ended it.
unfoldable pub scan_lines : Scan → List Bytes → Scan × ℕ × Bool
scan_lines s [] = (s, 0, false)
scan_lines s (raw ∷ lines) =
    let (last, taken, stopped) = scan_lines (scan_line s (trim_space raw)) lines in
    if is_media_line raw then (s, 0, true) else (last, suc taken, stopped)

-- `consumeUntilNextMedia`, on the lines from `from` on.
unfoldable pub consume_until_next_media : List Bytes → ℕ
consume_until_next_media [] = 0
consume_until_next_media (raw ∷ lines) =
    let rest = consume_until_next_media lines in if is_media_line raw then 0 else suc rest

abbrev pub new_scan : Bytes → ℕ → Scan
new_scan session_ip port = record {
  media = record {
    ip = session_ip;
    port = port;
    rtcp_port = 0;
    rtcp_addr = [];
    rtcp_mux = false;
    codecs = [];
    clock_rates = [];
    srtp = false;
  };
  inactive = false;
  media_ip = [];
}

-- The port of an audio line, none where `parseMedia` passes the section over.
unfoldable pub audio_port : Bytes → Option ℕ
audio_port first =
    let fs = fields (trim_prefix first (codes "m=")) in
    if ltb (length fs) 2 || not (equal (field fs 0) media_audio)
    then none
    else in_range 1 65535 (atoi (field fs 1))

abbrev pub scanned_media : Scan → Option Media
scanned_media s =
    if s.inactive
    then none
    else some (elim s.media_ip [ [] ↦ s.media | c ∷ ip ↦ record s.media { ip = c ∷ ip } ])

-- `parseMedia`: the media where it is to be kept, and the lines consumed behind the first.
unfoldable pub parse_media : List Bytes → ℕ → Bytes → Option Media × ℕ
parse_media lines start session_ip =
    let first = trim_space (field lines start) in
    let behind = drop (suc start) lines in
    elim (audio_port first) [
      | none ↦ (none, consume_until_next_media behind)
      | some port ↦
          let (s, taken, stopped) = scan_lines (new_scan session_ip port) behind in
          let j = if stopped then start + 1 + taken - 1 else start + 1 + taken in
          (scanned_media s, j - start)
    ]

-- The variables of the loop of `Parse`.
pub record Session : Type 0 where
  pub session_ip : Bytes
  pub origin_ip : Bytes
  pub session_c_seen : Bool
  pub result : List Media

abbrev pub with_origin : Bytes → Media → Media
with_origin origin_ip m = elim m.ip [ [] ↦ record m { ip = origin_ip } | c ∷ ip ↦ m ]

-- Held and IPv6 media are skipped.
abbrev pub if_active : Media → List Media
if_active m = if equal m.ip ip_null_hold || not (is_ipv4_text m.ip) then [] else m ∷ []

abbrev pub kept_media : Bytes → Option Media → List Media
kept_media origin_ip none = []
kept_media origin_ip (some m) = if_active (with_origin origin_ip m)

unfoldable pub has_media_before : List Bytes → ℕ → Bool
has_media_before [] i = false
has_media_before (raw ∷ lines) zero = false
has_media_before (raw ∷ lines) (suc i) = is_media_line raw || has_media_before lines i

-- The first line `c=` of the session.
abbrev pub session_conn : Bytes → Session → Session
session_conn line s =
    let (ip, ver) = extract_conn_ip line in
    record s {
      session_ip = if equal ver ip_ver_ipv4 then ip else s.session_ip;
      session_c_seen = true;
    }

-- One round of the loop: the next index and the variables.
unfoldable pub parse_line : List Bytes → ℕ → Bytes → Session → ℕ × Session
parse_line lines i line s =
    if has_prefix line (codes "o=")
    then (i + 1, record s { origin_ip = extract_origin_ip line })
    else if has_prefix line (codes "m=")
    then (let (media, consumed) = parse_media lines i s.session_ip in
        (i + consumed + 1, record s { result = s.result ++ kept_media s.origin_ip media }))
    else if has_prefix line (codes "c=") && (not s.session_c_seen && not (has_media_before lines i))
    then (i + 1, session_conn line s)
    else (i + 1, s)

unfoldable pub parse_loop : ℕ → List Bytes → ℕ → Session → Option (List Media)
parse_loop zero lines i s = none
parse_loop (suc fuel) lines i s = elim (get_elem? lines i) [
  | none ↦ some s.result
  | some raw ↦
      let (next, after) = parse_line lines i (trim_space raw) s in parse_loop fuel lines next after
]

abbrev pub new_session : Session
new_session = record { session_ip = []; origin_ip = []; session_c_seen = false; result = [] }

unfoldable pub parse : Bytes → Option (List Media)
parse [] = some []
parse (c ∷ body) =
    let lines = split_byte b'\n' (c ∷ body) in parse_loop (suc (length lines)) lines 0 new_session
