-- ===== src/Examples/Tracker.antt =====
-- internal/mediatracker/tracker.go at concrete inputs, with whole numbers for float64.
use sip_exporter.Prelude.{
  ℕ, ◌+◌, ◌-◌, ◌*◌, ◌/◌, ◌≡◌, ◌≤◌, refl, true, false, String, List, [], ◌∷◌, ◌++◌, none, some,
  some_or, is_some, ite, if◌then◌else◌, ◌||◌, arith, String-discrete, ℕ_discrete, string_key,
}
use sip_exporter.Prelude.Int.{pos, negsuc}
use sip_exporter.Prelude.Assoc.{lookup, insert, delete}
use sip_exporter.Rtp.{Header, codec_name, is_audio_codec}
use sip_exporter.Stream.{FloatOps, new_stream_state, observe}
use sip_exporter.Tracker.{
  Ipv4, Endpoint, Endpoint-discrete, StreamKey-discrete, Ipv4-discrete, same_ip, endpoint_key,
  new_ipv4_endpoint_key, MediaLabels, StreamKey, stream_key, StreamEntry, Tracker, new_tracker,
}
use sip_exporter.Tracker.Index.{cleanup}
use sip_exporter.Tracker.Media.{
  register, register_rtcp, displace, own, owned_endpoints, unregister, replace,
}
use sip_exporter.Tracker.Alias.{learn_source_alias}
use sip_exporter.Tracker.Rtp.{Match, lookup_endpoint, observe_packet, observe_result, new_entry}
use sip_exporter.Tracker.Rtcp.{select_stream, record_rtcp}
use sip_exporter.Tracker.Calls.{Call, registers, registers_rtcp, unregisters, observes, steps}
use sip_exporter.Tracker.Indexed.Select.{search_streams, steps-select_stream}
use sip_exporter.Tracker.Owned.Refines.{history, or_alias, steps-history}
use sip_exporter.Tracker.Reported.{
  Seen, after, next_entry, ways, jumps, moves_forward, ahead, observe_result-after,
}
use sip_exporter.Tracker.Loss.{Rising, record_all, record_all-last_of}
use sip_exporter.Tracker.Release.{owned_endpoints-unregister}
use sip_exporter.Tracker.Aging.{fresh_at, steps-cleanup, cleanup-record_rtcp}
use sip_exporter.Tracker.Observed.{observe_packet_unmatched}

instance abbrev whole : FloatOps ℕ
whole = record {
  of_ℕ = λ n. n;
  add = λ a b. a + b;
  sub = λ a b. a - b;
  mul = λ a b. a * b;
  div = λ a b. a / b;
}

abbrev host : ℕ → Ipv4
host d = record { a = 10; b = 0; c = 0; d = d }

abbrev at_port : ℕ → ℕ → Endpoint
at_port d port = new_ipv4_endpoint_key (host d) port

abbrev labels_of : String → MediaLabels
labels_of call_id = record {
  carrier = "acme";
  ua_type = "phone";
  source_country = "DE";
  direction = "in";
  call_id = call_id;
  sdp_codecs = [];
  clock_rates = [];
}

abbrev header : ℕ → ℕ → Header
header ssrc seq = record {
  version = 2;
  padding = false;
  extension = false;
  csrc_count = 0;
  marker = false;
  payload_type = 8;
  sequence_number = seq;
  timestamp = 160;
  ssrc = ssrc;
}

-- Two endpoints of dialog a, one of which dialog b has as well, and a packet to each.
abbrev talk : List Call
talk =
    registers (at_port 1 4000) (labels_of "a")
    ∷ registers (at_port 2 5000) (labels_of "a")
    ∷ registers (at_port 2 5000) (labels_of "b")
    ∷ registers_rtcp (at_port 1 4001) (at_port 1 4000) "a"
    ∷ observes (at_port 2 5000) (at_port 1 4000) (header 7 1) 10
    ∷ observes (at_port 1 4000) (at_port 2 5000) (header 9 1) 20
    ∷ []

-- The same without dialog b and the packets.
abbrev offer : List Call
offer = registers (at_port 1 4000) (labels_of "a") ∷ registers (at_port 2 5000) (labels_of "a") ∷ []

abbrev talking : Tracker ℕ
talking = steps (new_tracker 100) talk

abbrev offered : Tracker ℕ
offered = steps (new_tracker 100) offer

steps-select_stream_example :
    select_stream talking 7 (at_port 2 9) (at_port 1 4001)
    ≡ search_streams talking 7 (at_port 2 9) (at_port 1 4001)
steps-select_stream_example = steps-select_stream {F = ℕ} 100 talk 7 (at_port 2 9) (at_port 1 4001)

-- The stream of the RTCP endpoint is the one at its RTP endpoint.
selects_by_rtcp : is_some (select_stream talking 7 (at_port 2 9) (at_port 1 4001)) ≡ true
unfolding select_stream register own displace register_rtcp observe_packet lookup insert delete
    Endpoint-discrete StreamKey-discrete Ipv4-discrete String-discrete ℕ_discrete new_stream_state
    observe sip_exporter.Stream.observe_first learn_source_alias same_ip codec_name is_audio_codec
selects_by_rtcp = refl

-- Two streams of one SSRC and no endpoint to tell them apart.
selects_none :
    is_some (
      select_stream {F = ℕ}
        (steps (new_tracker 100) (
          registers (at_port 1 4000) (labels_of "a")
          ∷ registers (at_port 2 5000) (labels_of "b")
          ∷ observes (at_port 3 1) (at_port 1 4000) (header 7 1) 10
          ∷ observes (at_port 3 1) (at_port 2 5000) (header 7 1) 20
          ∷ []))
        7
        (at_port 2 9)
        (at_port 3 9))
    ≡ false
unfolding select_stream register own displace register_rtcp observe_packet lookup insert delete
    Endpoint-discrete StreamKey-discrete Ipv4-discrete String-discrete ℕ_discrete new_stream_state
    observe sip_exporter.Stream.observe_first learn_source_alias same_ip codec_name is_audio_codec
selects_none = refl

-- Dialog b gives the endpoint up, which falls back to what dialog a said.
abbrev parted : List Call
parted = registers (at_port 2 5000) (labels_of "c") ∷ unregisters "c" ∷ unregisters "b" ∷ []

steps-history_example :
    let t : Tracker ℕ = steps talking parted in
    (lookup_endpoint t (at_port 2 5000)
      ≡ or_alias
          (history (at_port 2 5000) (talk ++ parted)).rtp.current
          (lookup (at_port 2 5000) t.media_aliases))
    × (lookup (at_port 2 5000) t.rtcp_media
        ≡ (history (at_port 2 5000) (talk ++ parted)).rtcp.current)
steps-history_example = steps-history ℕ 100 (talk ++ parted) (at_port 2 5000)

history_falls_back : (history (at_port 2 5000) (talk ++ parted)).rtp.current ≡ some (labels_of "a")
unfolding lookup insert delete Endpoint-discrete Ipv4-discrete String-discrete ℕ_discrete
history_falls_back = refl

abbrev entry : StreamEntry ℕ
entry = new_entry (header 7 1) "PCMA" (labels_of "a") 10

abbrev seen : ℕ → Seen
seen seq = record { header = header 7 seq; arrival = 10; codec = "PCMA" }

abbrev matched : Match
matched = record { labels = labels_of "a"; endpoint = at_port 1 4000; matched_by = "dst" }

observe_result-after_example :
    let e : StreamEntry ℕ = after entry (seen 1 ∷ seen 2 ∷ []) in
    let r = observe_result e.state (next_entry e (seen 5)).state matched "PCMA" none in
    (ways r ≡ (if jumps e.state (header 7 5) then 0 else 1))
    × (r.lost ≡ (if moves_forward e.state (header 7 5) then ahead e.state (header 7 5) - 1 else 0))
observe_result-after_example =
    observe_result-after ℕ (header 7 1) "PCMA" (labels_of "a") 10 (seen 1 ∷ seen 2 ∷ []) (seen 5)
      matched none (omega arith)

rising : Rising (negsuc 1) (pos 3 ∷ pos 3 ∷ pos 8 ∷ [])
rising = ground arith

record_all-last_of_example : (record_all entry (negsuc 1 ∷ pos 3 ∷ pos 3 ∷ pos 8 ∷ [])).1 ≡ 10
record_all-last_of_example =
    record_all-last_of entry (negsuc 1) (pos 3 ∷ pos 3 ∷ pos 8 ∷ []) refl rising

owned_endpoints-unregister_example :
    ((unregister talking "a").2 ≡ owned_endpoints talking "a")
    × ((replace talking "a").1 ≡ owned_endpoints talking "a")
    × (owned_endpoints (unregister talking "a").0 "b"
        ≡ ite (String-discrete "a" "b") [] (owned_endpoints talking "b"))
    × (owned_endpoints (replace talking "a").0 "b"
        ≡ ite (String-discrete "a" "b") [] (owned_endpoints talking "b"))
owned_endpoints-unregister_example = owned_endpoints-unregister talking "a" "b"

abbrev key_7 : StreamKey
key_7 = record { endpoint = at_port 1 4000; ssrc = 7 }

steps-cleanup_example :
    lookup key_7 (cleanup talking 115).streams
    ≡ fresh_at talking.ttl 115 (lookup key_7 talking.streams)
steps-cleanup_example = steps-cleanup {F = ℕ} 100 talk 115 key_7

abbrev entry_7 : StreamEntry ℕ
entry_7 = some_or (lookup key_7 talking.streams) entry

selects_7 : select_stream talking 7 (at_port 2 5000) (at_port 1 4000) ≡ some (key_7, entry_7)
unfolding select_stream register own displace register_rtcp observe_packet lookup insert delete
    Endpoint-discrete StreamKey-discrete Ipv4-discrete String-discrete ℕ_discrete new_stream_state
    observe sip_exporter.Stream.observe_first learn_source_alias same_ip codec_name is_audio_codec
selects_7 = refl

young : 190 ≤ 95 + talking.ttl
unfolding select_stream register own displace register_rtcp observe_packet lookup insert delete
    Endpoint-discrete StreamKey-discrete Ipv4-discrete String-discrete ℕ_discrete new_stream_state
    observe sip_exporter.Stream.observe_first learn_source_alias same_ip codec_name is_audio_codec
young = omega arith

-- The report at 95 keeps the stream for a cleanup at 190; the packets at 10 and 20 would not.
cleanup-record_rtcp_example :
    let u : Tracker ℕ = (record_rtcp talking 95 7 (pos 3) (at_port 2 5000) (at_port 1 4000)).0 in
    (lookup key_7 (cleanup u 190).streams ≡ lookup key_7 u.streams)
    × (is_some (lookup key_7 (cleanup u 190).streams) ≡ true)
cleanup-record_rtcp_example =
    cleanup-record_rtcp {F = ℕ} 100 talk 95 190 7 (pos 3) (at_port 2 5000) (at_port 1 4000) key_7
      entry_7 selects_7 young

-- The source of a packet becomes an alias of the endpoint that is advertised at its address.
learns_alias :
    (learn_source_alias offered "a" (at_port 1 4000) (at_port 2 5002)).1 ≡ some (at_port 2 5002)
unfolding select_stream register own displace register_rtcp observe_packet lookup insert delete
    Endpoint-discrete StreamKey-discrete Ipv4-discrete String-discrete ℕ_discrete new_stream_state
    observe sip_exporter.Stream.observe_first learn_source_alias same_ip codec_name is_audio_codec
learns_alias = refl

offered_resolves : lookup_endpoint offered (at_port 2 5000) ≡ some (labels_of "a")
unfolding lookup_endpoint select_stream register own displace register_rtcp observe_packet lookup
    insert delete Endpoint-discrete StreamKey-discrete Ipv4-discrete String-discrete ℕ_discrete
    new_stream_state observe sip_exporter.Stream.observe_first learn_source_alias same_ip codec_name
    is_audio_codec
offered_resolves = refl

observe_packet_unmatched_example :
    (is_some (observe_packet offered (at_port 3 1) (at_port 4 1) (header 7 1) 10).1 ≡ (
      is_some (lookup_endpoint offered (at_port 4 1))
      || is_some (lookup_endpoint offered (at_port 3 1))))
    × ((if is_some (observe_packet offered (at_port 3 1) (at_port 4 1) (header 7 1) 10).1
          then offered
          else (observe_packet offered (at_port 3 1) (at_port 4 1) (header 7 1) 10).0)
        ≡ offered)
observe_packet_unmatched_example =
    observe_packet_unmatched offered (at_port 3 1) (at_port 4 1) (header 7 1) 10
