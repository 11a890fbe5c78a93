-- ===== src/Tracker/Rtp.antt =====
-- RTP packets: `lookupLabels`, `Observe` and `ObserveIPv4`.
use sip_exporter.Prelude.{
  ℕ, ◌-◌, Bool, true, false, ◌&&◌, String, [], ◌∷◌, ◌++◌, Option, none, some, ite, if◌then◌else◌,
  ltb, leb, string_key, nat_key, String-discrete,
}
use sip_exporter.Prelude.Int.{pos}
use sip_exporter.Prelude.Assoc.{lookup, insert, lookup_list}
use sip_exporter.Rtp.{Header, codec_name, is_audio_codec}
use sip_exporter.Stream.{FloatOps, StreamState, new_stream_state, observe}
use sip_exporter.Tracker.{
  Ipv4, Netip, Endpoint, endpoint_key, new_ipv4_endpoint_key, new_binary_endpoint_key, MediaLabels,
  StreamKey, stream_key, StreamEntry, Tracker, matched_by_dst, matched_by_src, default_clock_rate,
}
use sip_exporter.Tracker.Alias.{learn_source_alias}

pub record Match : Type 0 where
  pub labels : MediaLabels
  pub endpoint : Endpoint
  pub matched_by : String

pub record ObserveResult (F : Type 0) : Type 0 where
  pub counted : Bool
  pub duplicate : Bool
  pub reorder : Bool
  pub lost : ℕ
  pub delay_variation_ms : F
  pub stream_packets_total : ℕ
  pub matched : Match
  pub codec : String
  pub learned_endpoint : Option Endpoint

-- `labels.ClockRates[pt]` where it is present and positive.
abbrev pub clock_rate_of : MediaLabels → ℕ → ℕ
clock_rate_of labels pt = elim (lookup pt labels.clock_rates) [
  | none ↦ default_clock_rate
  | some rate ↦ if ltb 0 rate then rate else default_clock_rate
]

module _ {F : Type 0} where
  -- `Lookup`: an explicit registration wins over a learned alias.
  unfoldable pub lookup_endpoint : Tracker F → Endpoint → Option MediaLabels
  lookup_endpoint t key = elim (lookup key t.media) [
    | none ↦ lookup key t.media_aliases
    | some l ↦ some l
  ]

  -- `lookupLabels`
  unfoldable pub lookup_labels : Tracker F → Endpoint → Endpoint → Option Match
  lookup_labels t src dst = elim (lookup dst t.media) [
    | some l ↦ some (record { labels = l; endpoint = dst; matched_by = matched_by_dst })
    | none ↦ elim (lookup dst t.media_aliases) [
      | some l ↦ some (record { labels = l; endpoint = dst; matched_by = matched_by_dst })
      | none ↦ elim (lookup src t.media) [
        | some l ↦ some (record { labels = l; endpoint = src; matched_by = matched_by_src })
        | none ↦ elim (lookup src t.media_aliases) [
          | some l ↦ some (record { labels = l; endpoint = src; matched_by = matched_by_src })
          | none ↦ none
        ]
      ]
    ]
  ]

module _ {F : Type 0} ⦃fl : FloatOps F⦄ where
  abbrev pub new_entry : Header → String → MediaLabels → ℕ → StreamEntry F
  new_entry h codec labels arrival = record {
    state = new_stream_state h.ssrc codec (clock_rate_of labels h.payload_type) arrival;
    labels = labels;
    codec = codec;
    last_rtcp = 0;
    rtcp_prev_loss = pos 0;
    rtcp_loss_seen = false;
  }

  -- A stream that is seen for the first time goes into every table.
  unfoldable pub add_stream : Tracker F → StreamKey → StreamEntry F → Tracker F
  add_stream t key entry =
      let c = entry.labels.call_id in
      record t {
        streams = insert key entry t.streams;
        ssrc_index = insert key.ssrc (lookup_list key.ssrc t.ssrc_index ++ (key ∷ [])) t.ssrc_index;
        call_rtp = insert c (insert key.endpoint tt (lookup_list c t.call_rtp)) t.call_rtp;
        dialog_rtp_observed = insert c true t.dialog_rtp_observed;
      }

  -- The observation of a packet on its entry, and the result.
  abbrev pub observe_entry : StreamEntry F → Header → ℕ → String → StreamEntry F
  observe_entry entry h arrival codec = record entry {
    state = observe entry.state h arrival (is_audio_codec codec);
  }

  abbrev pub observe_result :
      StreamState F → StreamState F → Match → String → Option Endpoint → ObserveResult F
  observe_result before after m codec learned = record {
    counted = ltb before.packets_total after.packets_total;
    duplicate = ltb before.packets_duplicate after.packets_duplicate;
    reorder = ltb before.packets_reorder after.packets_reorder;
    lost =
        if leb before.packets_lost after.packets_lost
        then after.packets_lost - before.packets_lost
        else 0;
    delay_variation_ms = after.last_packet_delay_variation_ms;
    stream_packets_total = after.packets_total;
    matched = m;
    codec = codec;
    learned_endpoint = learned;
  }

  -- `observe`, from the entry of the stream on.
  unfoldable pub observe_on :
      Tracker F
      → StreamKey
      → StreamEntry F
      → Match
      → Endpoint
      → Header
      → ℕ
      → String
      → Tracker F × ObserveResult F
  observe_on t key entry m src h arrival codec =
      let after = observe_entry entry h arrival codec in
      let u = record t { streams = insert key after t.streams } in
      let by_dst = ite (String-discrete m.matched_by matched_by_dst) true false in
      let learning = learn_source_alias u m.labels.call_id m.endpoint src in
      let (v, learned) =
        if ltb entry.state.packets_total after.state.packets_total && by_dst
        then learning
        else (u, none) in
      (v, observe_result entry.state after.state m codec learned)

  unfoldable pub observe_packet :
      Tracker F → Endpoint → Endpoint → Header → ℕ → Tracker F × Option (ObserveResult F)
  unfolding lookup_labels add_stream observe_on
  observe_packet t src dst h arrival = elim (lookup_labels t src dst) [
    | none ↦ (t, none)
    | some m ↦
        let codec = codec_name h.payload_type m.labels.sdp_codecs in
        let key : StreamKey = record { endpoint = m.endpoint; ssrc = h.ssrc } in
        elim (lookup key t.streams) [
          | none ↦
              let entry = new_entry h codec m.labels arrival in
              let (u, r) = observe_on (add_stream t key entry) key entry m src h arrival codec in
              (u, some r)
          | some entry ↦ let (u, r) = observe_on t key entry m src h arrival codec in (u, some r)
        ]
  ]

  -- `ObserveIPv4` and `Observe`
  unfoldable pub observe_ipv4 :
      Tracker F → Ipv4 → ℕ → Ipv4 → ℕ → Header → ℕ → Tracker F × Option (ObserveResult F)
  observe_ipv4 t src_ip src_port dst_ip dst_port h arrival =
      observe_packet t (new_ipv4_endpoint_key src_ip src_port)
        (new_ipv4_endpoint_key dst_ip dst_port) h arrival

  unfoldable pub observe_text :
      Netip
      → Tracker F
      → String
      → ℕ
      → String
      → ℕ
      → Header
      → ℕ
      → Tracker F × Option (ObserveResult F × String)
  observe_text np t src_ip src_port dst_ip dst_port h arrival =
      let (u, result) =
        observe_packet t (new_binary_endpoint_key np src_ip src_port)
          (new_binary_endpoint_key np dst_ip dst_port) h arrival in
      (
        u,
        elim result [
          | none ↦ none
          | some r ↦
              some (r, ite (String-discrete r.matched.matched_by matched_by_src) src_ip dst_ip)
        ],
      )
