-- ===== src/Tracker/Index.antt =====
-- The streams of the tracker and the index of their SSRCs.
use sip_exporter.Prelude.{
  ℕ, ◌+◌, Bool, true, false, List, [], ◌∷◌, ite, ◌==◌, if◌then◌else◌, length, nat_key, ltb,
}
use sip_exporter.Prelude.Assoc.{insert, delete, lookup_list}
use sip_exporter.Tracker.{StreamKey, StreamKey-discrete, stream_key, StreamEntry, Tracker}

-- `append(keys[:i], keys[i+1:]...)` at the first hit.
unfoldable pub remove_key : StreamKey → List StreamKey → List StreamKey
remove_key key [] = []
remove_key key (k ∷ keys) = ite (StreamKey-discrete k key) keys (k ∷ remove_key key keys)

abbrev pub has_key : StreamKey → List StreamKey → Bool
has_key key [] = false
has_key key (k ∷ keys) = ite (StreamKey-discrete k key) true (has_key key keys)

-- `removeSSRCIndex`
unfoldable pub remove_ssrc_index : StreamKey → List (ℕ × List StreamKey) → List (ℕ × List StreamKey)
remove_ssrc_index key index =
    let keys = lookup_list key.ssrc index in
    if has_key key keys
    then (if length keys == 1
        then delete key.ssrc index
        else insert key.ssrc (remove_key key keys) index)
    else index

module _ {F : Type 0} where
  -- `t.removeSSRCIndex(key); delete(t.streams, key)`
  unfoldable pub drop_stream : StreamKey → Tracker F → Tracker F
  drop_stream key t = record t {
    ssrc_index = remove_ssrc_index key t.ssrc_index;
    streams = delete key t.streams;
  }

  -- A loop over the streams that drops those under a test.
  unfoldable pub drop_streams :
      (StreamKey → StreamEntry F → Bool) → List (StreamKey × StreamEntry F) → Tracker F → Tracker F
  drop_streams p [] t = t
  drop_streams p ((key, e) ∷ rest) t =
      drop_streams p rest (if p key e then drop_stream key t else t)

  abbrev pub stale : ℕ → ℕ → StreamEntry F → Bool
  stale ttl now e =
      let last_arrival = e.state.last_arrival in
      let last = if ltb last_arrival e.last_rtcp then e.last_rtcp else last_arrival in
      ltb (last + ttl) now

  -- `Cleanup`
  unfoldable pub cleanup : Tracker F → ℕ → Tracker F
  cleanup t now = drop_streams (λ key e. stale t.ttl now e) t.streams t

  unfoldable pub stream_count : Tracker F → ℕ
  stream_count t = length t.streams
