-- ===== src/Tracker/Observed.antt =====
-- What endpoints resolve to when packets are seen.
use sip_exporter.Prelude.{
  ℕ, ◌≡◌, ◌∙◌, ap, ap₂, sym, refl, true, false, ◌||◌, String, Option, none, some, is_some, ite,
  if◌then◌else◌, arith, Option-cases, inl, inr, String-discrete, string_key,
}
use sip_exporter.Prelude.Assoc.{lookup, insert}
use sip_exporter.Rtp.{Header, codec_name}
use sip_exporter.Stream.{FloatOps}
use sip_exporter.Tracker.{
  Ipv4, Netip, Endpoint, endpoint_key, new_binary_endpoint_key, new_ipv4_endpoint_key,
  matched_by_dst, matched_by_src, MediaLabels, StreamKey, stream_key, StreamEntry, Tracker,
}
use sip_exporter.Tracker.Rtp.{
  Match, ObserveResult, lookup_endpoint, lookup_labels, observe_on, observe_entry, observe_packet,
  add_stream, new_entry, observe_ipv4, observe_text,
}
use sip_exporter.Tracker.Resolution.{same_lookup, lookup_endpoint-kept}

-- The address that `Observe` reports.
abbrev reported : Netip → Ipv4 → Ipv4 → Match → String
reported np src dst m =
    ite (String-discrete m.matched_by matched_by_src) (np.text4 src) (np.text4 dst)

dst_not_src : ite (String-discrete matched_by_dst matched_by_src) true false ≡ false
unfolding String-discrete
dst_not_src = refl

binary_text :
    (np : Netip) (a : Ipv4) (port : ℕ)
    → np.parse_addr4 (np.text4 a) ≡ some a
    → new_binary_endpoint_key np (np.text4 a) port ≡ new_ipv4_endpoint_key a port
binary_text np a port reads = rw (reads, new_binary_endpoint_key) refl

module _ {F : Type 0} ⦃fl : FloatOps F⦄ where
  observe_on-kept :
      (t : Tracker F) (key : StreamKey) (entry : StreamEntry F) (m : Match) (src : Endpoint)
      (h : Header) (arrival : ℕ) (codec : String) (k : Endpoint) (l : MediaLabels)
      → lookup_endpoint t k ≡ some l
      → lookup_endpoint (observe_on t key entry m src h arrival codec).0 k ≡ some l
  unfolding observe_on
  observe_on-kept t key entry m src h arrival codec k l e =
      let u : Tracker F = record t {
        streams = insert key (observe_entry entry h arrival codec) t.streams;
      } in
      let unchanged : lookup_endpoint u k ≡ some l = same_lookup t u k refl refl ∙ e in
      ground
        (arith, unchanged, lookup_endpoint-kept u m.labels.call_id m.endpoint src k l unchanged)

  add_stream-kept :
      (t : Tracker F) (key : StreamKey) (entry : StreamEntry F) (k : Endpoint)
      → lookup_endpoint (add_stream t key entry) k ≡ lookup_endpoint t k
  unfolding add_stream
  add_stream-kept t key entry k = same_lookup t _ k refl refl

  -- Seeing a packet, and the source alias that is learned from it, changes for no endpoint that
  -- resolved before what it resolves to.
  pub lookup_endpoint-observe_packet :
      (t : Tracker F) (src dst : Endpoint) (h : Header) (arrival : ℕ) (k : Endpoint)
      (l : MediaLabels)
      → lookup_endpoint t k ≡ some l
      → lookup_endpoint (observe_packet t src dst h arrival).0 k ≡ some l
  unfolding observe_packet
  lookup_endpoint-observe_packet t src dst h arrival k l e =
      elim (Option-cases (lookup_labels t src dst)) [
        | inl unmatched ↦ rw (unmatched, observe_packet) e
        | inr (m, matched) ↦
            let codec = codec_name h.payload_type m.labels.sdp_codecs in
            let key : StreamKey = record { endpoint = m.endpoint; ssrc = h.ssrc } in
            elim (Option-cases (lookup key t.streams)) [
              | inl absent ↦
                  let entry = new_entry h codec m.labels arrival in
                  rw (matched, absent, observe_packet)
                    (observe_on-kept (add_stream t key entry) key entry m src h arrival codec k l
                      (add_stream-kept t key entry k ∙ e))
              | inr (entry, present) ↦
                  rw (matched, present, observe_packet)
                    (observe_on-kept t key entry m src h arrival codec k l e)
            ]
      ]

  labels_found :
      (t : Tracker F) (src dst : Endpoint)
      → is_some (lookup_labels t src dst)
        ≡ (is_some (lookup_endpoint t dst) || is_some (lookup_endpoint t src))
  unfolding lookup_labels lookup_endpoint
  labels_found t src dst = ground arith

  -- A packet is observed exactly where its destination or its source resolves; a packet for which
  -- neither does leaves the tracker as it is.
  pub observe_packet_unmatched :
      (t : Tracker F) (src dst : Endpoint) (h : Header) (arrival : ℕ)
      → (is_some (observe_packet t src dst h arrival).1
          ≡ (is_some (lookup_endpoint t dst) || is_some (lookup_endpoint t src)))
        × ((if is_some (observe_packet t src dst h arrival).1
              then t
              else (observe_packet t src dst h arrival).0)
            ≡ t)
  unfolding observe_packet
  observe_packet_unmatched t src dst h arrival =
      let found = labels_found t src dst in
      elim (Option-cases (lookup_labels t src dst)) [
        | inl unmatched ↦ rw (unmatched, observe_packet) (sym (ap is_some unmatched) ∙ found, refl)
        | inr (m, matched) ↦
            let key : StreamKey = record { endpoint = m.endpoint; ssrc = h.ssrc } in
            elim (Option-cases (lookup key t.streams)) [
              | inl absent ↦
                  rw (matched, absent, observe_packet) (sym (ap is_some matched) ∙ found, refl)
              | inr (entry, present) ↦
                  rw (matched, present, observe_packet) (sym (ap is_some matched) ∙ found, refl)
            ]
      ]

  abbrev told_as :
      (Match → String)
      → Tracker F × Option (ObserveResult F)
      → Tracker F × Option (ObserveResult F × String)
  told_as address (u, result) = (
    u,
    elim result as (λ r. Option (ObserveResult F × String)) [
      | none ↦ none
      | some r ↦ some (r, address r.matched)
    ],
  )

  reported_match :
      (np : Netip) (t : Tracker F) (src dst : Ipv4) (src_port dst_port : ℕ) (m : Match)
      → lookup_labels t (new_ipv4_endpoint_key src src_port) (new_ipv4_endpoint_key dst dst_port)
        ≡ some m
      → reported np src dst m ≡ np.text4 m.endpoint.ipv4
  unfolding lookup_labels
  reported_match np t src dst src_port dst_port m h = ground (arith, h, dst_not_src)

  result_match :
      (t : Tracker F) (src dst : Endpoint) (h : Header) (arrival : ℕ) (r : ObserveResult F)
      → (observe_packet t src dst h arrival).1 ≡ some r
      → lookup_labels t src dst ≡ some r.matched
  unfolding observe_packet observe_on
  result_match t src dst h arrival r e = elim (Option-cases (lookup_labels t src dst)) [
    | inl unmatched ↦ absurd (ground (arith, e, unmatched))
    | inr (m, matched) ↦
        let key : StreamKey = record { endpoint = m.endpoint; ssrc = h.ssrc } in
        elim (Option-cases (lookup key t.streams)) [
          | inl absent ↦ ground (arith, e, matched, absent)
          | inr (entry, present) ↦ ground (arith, e, matched, present)
        ]
  ]

  -- A packet whose addresses are the text of IPv4 addresses is observed as the one with the addresses
  -- themselves: the tracker after it and the result are the same, and the address that is reported is
  -- that of the endpoint which matched.
  pub observe_text-observe_ipv4 :
      (np : Netip) (t : Tracker F) (src dst : Ipv4) (src_port dst_port : ℕ) (h : Header)
      (arrival : ℕ)
      → np.parse_addr4 (np.text4 src) ≡ some src
      → np.parse_addr4 (np.text4 dst) ≡ some dst
      → observe_text np t (np.text4 src) src_port (np.text4 dst) dst_port h arrival ≡ (
        (observe_ipv4 t src src_port dst dst_port h arrival).0,
        elim (observe_ipv4 t src src_port dst dst_port h arrival).1 [
          | none ↦ none
          | some r ↦ some (r, np.text4 r.matched.endpoint.ipv4)
        ],
      )
  unfolding observe_text observe_ipv4
  observe_text-observe_ipv4 np t src dst src_port dst_port h arrival reads_src reads_dst =
      let s = new_ipv4_endpoint_key src src_port in
      let d = new_ipv4_endpoint_key dst dst_port in
      let told =
        λ (x y : Endpoint). told_as (reported np src dst) (observe_packet t x y h arrival) in
      ap₂ told (binary_text np src src_port reads_src) (binary_text np dst dst_port reads_dst)
      ∙ elim (Option-cases (observe_packet t s d h arrival).1) [
        | inl nothing ↦ rw nothing refl
        | inr (r, result) ↦ rw result (
            ap (λ (x : String). ((observe_packet t s d h arrival).0, some (r, x)))
              (reported_match np t src dst src_port dst_port r.matched
                (result_match t s d h arrival r result)))
      ]
