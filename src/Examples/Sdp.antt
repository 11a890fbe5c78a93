-- ===== src/Examples/Sdp.antt =====
-- An offer with an audio and a video section, and one that is held.
use sip_exporter.Prelude.{◌≡◌, refl, false, [], ◌∷◌, ◌++◌, some, All}
use sip_exporter.Prelude.Assoc.{insert}
use sip_exporter.Text.{
  Bytes, codes, equal, has_prefix, index_byte, index, trim_space, fields_from, split_byte, split_n,
  digits_from,
}
use sip_exporter.Sdp.{
  Media, extract_conn_ip, extract_origin_ip, is_ipv4_text, parse_rtpmap, parse_rtcp_attr, scan_line,
  scan_lines, consume_until_next_media, audio_port, parse_media, has_media_before, parse_line,
  parse_loop, parse,
}
use sip_exporter.Sdp.Section.{media_of}
use sip_exporter.Sdp.Sections.{parse-media_of}
use sip_exporter.Sdp.Active.{IsActive, parse-IsActive}

abbrev offer : Bytes
offer =
    codes "v=0\r\nc=IN IP4 10.0.0.1\r\nm=video 4002 RTP/AVP 96\r\nc=IN IP4 10.0.0.9\r\n"
    ++ codes "m=audio 4000 RTP/AVP 8\r\na=rtpmap:8 PCMA/8000\r\na=rtcp:4001\r\n"

abbrev offered : Media
offered = record {
  ip = codes "10.0.0.1";
  port = 4000;
  rtcp_port = 4001;
  rtcp_addr = [];
  rtcp_mux = false;
  codecs = (8, codes "PCMA") ∷ [];
  clock_rates = (8, 8000) ∷ [];
  srtp = false;
}

parse-offer : parse offer ≡ some (offered ∷ [])
unfolding parse parse_loop parse_line has_media_before parse_media audio_port
    consume_until_next_media scan_lines scan_line parse_rtcp_attr parse_rtpmap is_ipv4_text
    extract_origin_ip extract_conn_ip digits_from split_n split_byte fields_from trim_space index
    index_byte has_prefix equal insert
parse-offer = refl

parse-media_of_example : parse offer ≡ some (media_of (split_byte b'\n' offer))
parse-media_of_example = parse-media_of offer

parse-IsActive_example : All IsActive (offered ∷ [])
parse-IsActive_example = parse-IsActive offer (offered ∷ []) parse-offer

abbrev held : Bytes
held = codes "v=0\nc=IN IP4 0.0.0.0\nm=audio 4000 RTP/AVP 8\n"

parse-held : parse held ≡ some []
unfolding parse parse_loop parse_line has_media_before parse_media audio_port
    consume_until_next_media scan_lines scan_line is_ipv4_text extract_conn_ip digits_from
    split_byte fields_from trim_space index index_byte has_prefix equal insert
parse-held = refl

-- A session on IPv6 whose origin has an IPv4 address: the medium is given under that of the origin.
abbrev ipv6_session : Bytes
ipv6_session = codes "o=- 1 1 IN IP4 10.0.0.7\nc=IN IP6 2001:db8::1\nm=audio 4000 RTP/AVP 8\n"

abbrev from_origin : Media
from_origin = record offered { ip = codes "10.0.0.7"; rtcp_port = 0; codecs = []; clock_rates = [] }

parse-ipv6_session : parse ipv6_session ≡ some (from_origin ∷ [])
unfolding parse parse_loop parse_line has_media_before parse_media audio_port
    consume_until_next_media scan_lines scan_line parse_rtcp_attr parse_rtpmap is_ipv4_text
    extract_origin_ip extract_conn_ip digits_from split_n split_byte fields_from trim_space index
    index_byte has_prefix equal insert
parse-ipv6_session = refl

-- Digits that are no IPv4 address pass the test of the version.
abbrev short_address : Bytes
short_address = codes "c=IN IP4 999\nm=audio 4000 RTP/AVP 8\n"

parse-short_address : parse short_address ≡ some (record from_origin { ip = codes "999" } ∷ [])
unfolding parse parse_loop parse_line has_media_before parse_media audio_port
    consume_until_next_media scan_lines scan_line parse_rtcp_attr parse_rtpmap is_ipv4_text
    extract_origin_ip extract_conn_ip digits_from split_n split_byte fields_from trim_space index
    index_byte has_prefix equal insert
parse-short_address = refl
