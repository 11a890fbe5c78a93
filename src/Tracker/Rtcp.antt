-- ===== src/Tracker/Rtcp.antt =====
-- RTCP reports and snapshots: `LookupBySSRC`, `RecordRTCP` and `Snapshot`.
use sip_exporter.Prelude.{
  ℕ, ◌+◌, ◌-◌, ◌^◌, Bool, true, false, not, String, List, [], ◌∷◌, Option, none, some, ite,
  if◌then◌else◌, ltb, nat_key,
}
use sip_exporter.Prelude.Int.{ℤ, pos, negsuc, ◌-ℤ◌, pos_part}
use sip_exporter.Prelude.Assoc.{lookup, insert, lookup_list}
use sip_exporter.Stream.{
  FloatOps, classify_loss_run, jitter_ms, burst_loss_density, gap_loss_density,
}
use sip_exporter.Tracker.{
  Endpoint, Endpoint-discrete, endpoint_key, MediaLabels, RtcpMediaEntry, StreamKey, stream_key,
  StreamEntry, Tracker,
}

-- A separate RTCP endpoint stands for its RTP endpoint.
abbrev pub resolve : List (Endpoint × RtcpMediaEntry) → Endpoint → Endpoint
resolve m ep = elim (lookup ep m) [ none ↦ ep | some r ↦ r.rtp_endpoint ]

pub record RtcpContext : Type 0 where
  pub labels : MediaLabels
  pub codec : String
  pub clock_rate : ℕ

-- `uint64(d)` for the int32 difference `d` of two int32 values, from the difference that did not wrap.
abbrev pub widen_32 : ℕ → ℕ
widen_32 d = if ltb d (2 ^ 31) then d else 2 ^ 64 - 2 ^ 32 + d

abbrev pub is_negative : ℤ → Bool
is_negative (pos n) = false
is_negative (negsuc n) = true

module _ {F : Type 0} where
  -- The inner loop of `selectStream`, for one endpoint.
  unfoldable pub first_at :
      Endpoint
      → List StreamKey
      → List (StreamKey × StreamEntry F)
      → Option (StreamKey × StreamEntry F)
  first_at ep [] streams = none
  first_at ep (k ∷ keys) streams =
      let rest = first_at ep keys streams in
      ite (Endpoint-discrete k.endpoint ep)
        (elim (lookup k streams) [ none ↦ rest | some e ↦ some (k, e) ]) rest

  -- `if len(keys) == 1`
  unfoldable pub only_one :
      List StreamKey → List (StreamKey × StreamEntry F) → Option (StreamKey × StreamEntry F)
  only_one [] streams = none
  only_one (k ∷ []) streams = elim (lookup k streams) [ none ↦ none | some e ↦ some (k, e) ]
  only_one (k ∷ l ∷ keys) streams = none

  -- `selectStream`: the pointer that it returns is the key with the entry.
  unfoldable pub select_stream :
      Tracker F → ℕ → Endpoint → Endpoint → Option (StreamKey × StreamEntry F)
  unfolding first_at only_one
  select_stream t ssrc src dst =
      let keys = lookup_list ssrc t.ssrc_index in
      elim (first_at (resolve t.rtcp_media dst) keys t.streams) [
        | some found ↦ some found
        | none ↦ elim (first_at (resolve t.rtcp_media src) keys t.streams) [
          | some found ↦ some found
          | none ↦ only_one keys t.streams
        ]
      ]

  abbrev pub rtcp_context : StreamEntry F → RtcpContext
  rtcp_context e = record { labels = e.labels; codec = e.codec; clock_rate = e.state.clock_rate }

  -- `LookupBySSRC`
  unfoldable pub lookup_by_ssrc : Tracker F → ℕ → Endpoint → Endpoint → Option RtcpContext
  lookup_by_ssrc t ssrc src dst = elim (select_stream t ssrc src dst) [
    | none ↦ none
    | some (k, e) ↦ some (rtcp_context e)
  ]

  -- The loss baseline of an entry, and the increase since the last report.
  unfoldable pub record_loss : StreamEntry F → ℤ → StreamEntry F × ℕ
  record_loss e cumulative =
      if is_negative cumulative
      then (
        if not e.rtcp_loss_seen
            then record e { rtcp_loss_seen = true; rtcp_prev_loss = cumulative }
            else e,
        0,
      )
      else (
        record e { rtcp_loss_seen = true; rtcp_prev_loss = cumulative },
        if not e.rtcp_loss_seen
            then 0
            else if is_negative (cumulative -ℤ e.rtcp_prev_loss)
            then pos_part cumulative
            else widen_32 (pos_part (cumulative -ℤ e.rtcp_prev_loss)),
      )

  -- `recordRTCP`, with the clock that it reads.
  unfoldable pub record_rtcp :
      Tracker F → ℕ → ℕ → ℤ → Endpoint → Endpoint → Tracker F × Option (RtcpContext × ℕ)
  unfolding select_stream record_loss
  record_rtcp t now ssrc cumulative src dst = elim (select_stream t ssrc src dst) [
    | none ↦ (t, none)
    | some (k, e) ↦
        let (after, delta) = record_loss (record e { last_rtcp = now }) cumulative in
        (record t { streams = insert k after t.streams }, some (rtcp_context after, delta))
  ]

  abbrev pub classify_all : List (StreamKey × StreamEntry F) → List (StreamKey × StreamEntry F)
  classify_all [] = []
  classify_all ((k, e) ∷ rest) =
      (k, record e { state = classify_loss_run e.state }) ∷ classify_all rest

-- The part of `StreamStats` that is copied under the lock.
pub record StreamStats (F : Type 0) : Type 0 where
  pub ssrc : ℕ
  pub codec : String
  pub labels : MediaLabels
  pub packets_total : ℕ
  pub packets_lost : ℕ
  pub packets_duplicate : ℕ
  pub jitter : F
  pub burst_density : F
  pub gap_density : F
  pub last_seen : ℕ

module _ {F : Type 0} ⦃fl : FloatOps F⦄ where
  abbrev pub stats_of : StreamEntry F → StreamStats F
  stats_of e = record {
    ssrc = e.state.ssrc;
    codec = e.codec;
    labels = e.labels;
    packets_total = e.state.packets_total;
    packets_lost = e.state.packets_lost;
    packets_duplicate = e.state.packets_duplicate;
    jitter = jitter_ms e.state;
    burst_density = burst_loss_density e.state;
    gap_density = gap_loss_density e.state;
    last_seen = e.state.last_arrival;
  }

  abbrev pub all_stats : List (StreamKey × StreamEntry F) → List (StreamStats F)
  all_stats [] = []
  all_stats ((k, e) ∷ rest) = stats_of e ∷ all_stats rest

  -- `Snapshot` up to the point where it gives up the lock.
  unfoldable pub snapshot : Tracker F → Tracker F × List (StreamStats F)
  snapshot t =
      let classified = classify_all t.streams in
      (record t { streams = classified }, all_stats classified)
