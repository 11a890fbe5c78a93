-- ===== src/Tracker/Aging.antt =====
-- The age of streams: `Cleanup` and the reports that keep a stream.
use sip_exporter.Prelude.{
  ℕ, ◌+◌, ◌≡◌, ◌≤◌, ◌∙◌, refl, Bool, true, false, List, [], ◌∷◌, Option, none, some, is_some,
  if◌then◌else◌, arith, ltb,
}
use sip_exporter.Prelude.Int.{ℤ}
use sip_exporter.Prelude.Assoc.{lookup, IsMap, lookup-insert, lookup-delete}
use sip_exporter.Stream.{FloatOps}
use sip_exporter.Tracker.{Endpoint, StreamKey, stream_key, StreamEntry, Tracker, new_tracker}
use sip_exporter.Tracker.Index.{drop_stream, drop_streams, stale, cleanup}
use sip_exporter.Tracker.Rtcp.{select_stream, record_loss, record_rtcp}
use sip_exporter.Tracker.Calls.{Call, steps}
use sip_exporter.Tracker.Indexed.{Indexed}
use sip_exporter.Tracker.Indexed.Steps.{steps-Indexed, new_tracker-Indexed, record_rtcp-Indexed}

module _ {F : Type 0} where
  abbrev dropped : (StreamKey → StreamEntry F → Bool) → StreamKey → Option (StreamEntry F) → Bool
  dropped p k none = false
  dropped p k (some e) = p k e

  lookup-drop_streams :
      (p : StreamKey → StreamEntry F → Bool) (k : StreamKey) (xs : List (StreamKey × StreamEntry F))
      (t : Tracker F)
      → IsMap xs
      → lookup k (drop_streams p xs t).streams
        ≡ (if dropped p k (lookup k xs) then none else lookup k t.streams)
  unfolding drop_streams drop_stream lookup
  lookup-drop_streams p k [] t v = refl
  lookup-drop_streams p k ((j, e) ∷ xs) t v = ground (
    arith,
    v.0,
    lookup-delete j k t.streams,
    lookup-drop_streams p k xs t v.1,
    lookup-drop_streams p k xs (drop_stream j t) v.1,
  )

  -- What an idle time of more than `ttl` since the last RTP and the last RTCP packet leaves.
  abbrev pub fresh_at : ℕ → ℕ → Option (StreamEntry F) → Option (StreamEntry F)
  fresh_at ttl now none = none
  fresh_at ttl now (some e) =
      if ltb (e.state.last_arrival + ttl) now
      then (if ltb (e.last_rtcp + ttl) now then none else some e)
      else some e

  fresh_at-dropped :
      (ttl now : ℕ) (k : StreamKey) (o : Option (StreamEntry F))
      → (if dropped (λ k e. stale ttl now e) k o then none else o) ≡ fresh_at ttl now o
  fresh_at-dropped ttl now k none = refl
  fresh_at-dropped ttl now k (some e) = ground arith

  lookup-cleanup :
      (t : Tracker F) (now : ℕ) (k : StreamKey)
      → IsMap t.streams
      → lookup k (cleanup t now).streams ≡ fresh_at t.ttl now (lookup k t.streams)
  unfolding cleanup
  lookup-cleanup t now k v =
      lookup-drop_streams (λ k e. stale t.ttl now e) k t.streams t v
      ∙ fresh_at-dropped t.ttl now k (lookup k t.streams)

  record_loss_keeps :
      (e : StreamEntry F) (n : ℤ)
      → ((record_loss e n).0.last_rtcp ≡ e.last_rtcp) × ((record_loss e n).0.labels ≡ e.labels)
  unfolding record_loss
  record_loss_keeps e n = (ground arith, ground arith)

  lookup-record_rtcp :
      (t : Tracker F) (time ssrc : ℕ) (n : ℤ) (src dst : Endpoint) (k : StreamKey)
      (e : StreamEntry F)
      → select_stream t ssrc src dst ≡ some (k, e)
      → (lookup k (record_rtcp t time ssrc n src dst).0.streams
          ≡ some (record_loss (record e { last_rtcp = time }) n).0)
        × ((record_rtcp t time ssrc n src dst).0.ttl ≡ t.ttl)
  unfolding record_rtcp
  lookup-record_rtcp t time ssrc n src dst k e found =
      let after = (record_loss (record e { last_rtcp = time }) n).0 in
      (ground (arith, found, lookup-insert k k after t.streams), ground (arith, found))

module _ {F : Type 0} ⦃fl : FloatOps F⦄ where
  -- After any calls of a new tracker, a cleanup keeps, as they are, exactly the streams whose arrival
  -- on record or whose report on record is at most the time to live ago. Which packets move the
  -- arrival on record is not part of it.
  pub steps-cleanup :
      (ttl : ℕ) (xs : List Call) (now : ℕ) (k : StreamKey)
      → let t : Tracker F = steps (new_tracker ttl) xs in
        lookup k (cleanup t now).streams ≡ fresh_at t.ttl now (lookup k t.streams)
  steps-cleanup ttl xs now k =
      let v : Indexed {F = F} (steps (new_tracker ttl) xs) =
        steps-Indexed (new_tracker ttl) xs (new_tracker-Indexed ttl) in
      lookup-cleanup (steps (new_tracker ttl) xs) now k v.keyed

  -- After any calls of a new tracker, a stream that an RTCP report is recorded for outlives every
  -- cleanup until the time to live after the report, whenever its last RTP packet was.
  pub cleanup-record_rtcp :
      (ttl : ℕ) (xs : List Call) (time now ssrc : ℕ) (n : ℤ) (src dst : Endpoint) (k : StreamKey)
      (e : StreamEntry F)
      → select_stream (steps {F = F} (new_tracker ttl) xs) ssrc src dst ≡ some (k, e)
      → now ≤ time + (steps {F = F} (new_tracker ttl) xs).ttl
      → let u : Tracker F = (record_rtcp (steps (new_tracker ttl) xs) time ssrc n src dst).0 in
        (lookup k (cleanup u now).streams ≡ lookup k u.streams)
        × (is_some (lookup k (cleanup u now).streams) ≡ true)
  cleanup-record_rtcp ttl xs time now ssrc n src dst k e found young =
      let t : Tracker F = steps (new_tracker ttl) xs in
      let u : Tracker F = (record_rtcp t time ssrc n src dst).0 in
      let v : Indexed u =
        record_rtcp-Indexed t time ssrc n src dst
          (steps-Indexed (new_tracker ttl) xs (new_tracker-Indexed ttl)) in
      let (after, same_ttl) = lookup-record_rtcp t time ssrc n src dst k e found in
      let (reported, same_labels) = record_loss_keeps (record e { last_rtcp = time }) n in
      let kept : lookup k (cleanup u now).streams ≡ lookup k u.streams =
        ground (arith, lookup-cleanup u now k v.keyed, after, same_ttl, reported, young) in
      (kept, ground (arith, kept, after))
