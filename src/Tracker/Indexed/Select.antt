-- ===== src/Tracker/Indexed/Select.antt =====
-- `selectStream` against a search through all streams.
use sip_exporter.Prelude.{
  ℕ, suc, ◌+◌, ◌≡◌, ◌≢◌, ◌<◌, refl, ap, ◌∙◌, sym, List, [], ◌∷◌, Option, none, some, is_some, ◌==◌,
  if◌then◌else◌, arith, ltb, length, ℕ_discrete, nat_key,
}
use sip_exporter.Prelude.Assoc.{
  lookup, lookup_list, IsMap, retain, retain-IsMap, passed, lookup-retain,
}
use sip_exporter.Stream.{FloatOps}
use sip_exporter.Tracker.{Endpoint, StreamKey, stream_key, StreamEntry, Tracker, new_tracker}
use sip_exporter.Tracker.Index.{remove_key}
use sip_exporter.Tracker.Rtcp.{select_stream, first_at, only_one, resolve}
use sip_exporter.Tracker.Calls.{Call, steps}
use sip_exporter.Tracker.Indexed.{Indexed, count_key, count_key-remove_key}
use sip_exporter.Tracker.Indexed.Steps.{steps-Indexed, new_tracker-Indexed}

key_ext :
    (k : StreamKey) (ep : Endpoint) (s : ℕ)
    → k.endpoint ≡ ep
    → k.ssrc ≡ s
    → k ≡ record { endpoint = ep; ssrc = s }
key_ext k ep s p q = λ i. record { endpoint = p i; ssrc = q i }

module _ {F : Type 0} where
  -- The stream of this SSRC at an endpoint.
  abbrev pub stream_at :
      Endpoint → ℕ → List (StreamKey × StreamEntry F) → Option (StreamKey × StreamEntry F)
  stream_at ep s streams =
      let key : StreamKey = record { endpoint = ep; ssrc = s } in
      elim (lookup key streams) [ none ↦ none | some e ↦ some (key, e) ]

  -- All streams of this SSRC.
  abbrev pub streams_of : ℕ → List (StreamKey × StreamEntry F) → List (StreamKey × StreamEntry F)
  streams_of s streams = retain (λ k e. k.ssrc == s) streams

  abbrev pub sole : List (StreamKey × StreamEntry F) → Option (StreamKey × StreamEntry F)
  sole [] = none
  sole (x ∷ []) = some x
  sole (x ∷ y ∷ xs) = none

  -- The stream at the destination, else the one at the source, else the only one there is.
  abbrev pub search_streams :
      Tracker F → ℕ → Endpoint → Endpoint → Option (StreamKey × StreamEntry F)
  search_streams t s src dst = elim (stream_at (resolve t.rtcp_media dst) s t.streams) [
    | some found ↦ some found
    | none ↦ elim (stream_at (resolve t.rtcp_media src) s t.streams) [
      | some found ↦ some found
      | none ↦ sole (streams_of s t.streams)
    ]
  ]

  abbrev keys_of : List (StreamKey × StreamEntry F) → List StreamKey
  keys_of [] = []
  keys_of ((k, e) ∷ xs) = k ∷ keys_of xs

  count_key-keys_of :
      (k : StreamKey) (xs : List (StreamKey × StreamEntry F))
      → IsMap xs
      → count_key k (keys_of xs) ≡ (if is_some (lookup k xs) then 1 else 0)
  unfolding lookup
  count_key-keys_of k [] v = refl
  count_key-keys_of k ((j, e) ∷ xs) v = ground (arith, count_key-keys_of k xs v.1, v.0)

  -- A list without keys of another SSRC is searched for one key.
  first_at-stream_at :
      (ep : Endpoint) (s : ℕ) (keys : List StreamKey) (streams : List (StreamKey × StreamEntry F))
      → ((k : StreamKey) → k.ssrc ≢ s → count_key k keys ≡ 0)
      → first_at ep keys streams ≡ (
          if ltb 0 (count_key (record { endpoint = ep; ssrc = s }) keys)
          then stream_at ep s streams
          else none)
  unfolding first_at
  first_at-stream_at ep s [] streams h = refl
  first_at-stream_at ep s (j ∷ keys) streams h =
      let same : j.ssrc ≡ s = elim (ℕ_discrete j.ssrc s) [
        | yes p ↦ p
        | no n ↦ absurd (ground (arith, h j n))
      ] in
      let rest = first_at-stream_at ep s keys streams (λ k n. omega (arith, h k n)) in
      ground (arith, same, rest, key_ext j ep s)

length-remove_key :
    (j : StreamKey) (keys : List StreamKey)
    → 0 < count_key j keys
    → length (remove_key j keys) + 1 ≡ length keys
unfolding remove_key
length-remove_key j [] h = absurd (omega arith)
length-remove_key j (i ∷ keys) h = ground (arith, length-remove_key j keys)

-- Lists that have every key as often are of one length.
length-same :
    (xs ys : List StreamKey)
    → ((k : StreamKey) → count_key k xs ≡ count_key k ys)
    → length xs ≡ length ys
length-same [] [] h = refl
length-same [] (y ∷ ys) h = absurd (ground (arith, h y))
length-same (x ∷ xs) ys h =
    let shorter =
      length-same xs (remove_key x ys) (λ k. omega (arith, h k, count_key-remove_key k x ys)) in
    omega (arith, shorter, length-remove_key x ys (ground (arith, h x)))

module _ {F : Type 0} where
  length-keys_of : (xs : List (StreamKey × StreamEntry F)) → length (keys_of xs) ≡ length xs
  length-keys_of [] = refl
  length-keys_of (x ∷ xs) = ap suc (length-keys_of xs)

  -- The keys of the index under an SSRC are those of the streams with it.
  count_key-streams_of :
      (t : Tracker F) (s : ℕ) (k : StreamKey)
      → Indexed t
      → count_key k (lookup_list s t.ssrc_index) ≡ count_key k (keys_of (streams_of s t.streams))
  count_key-streams_of t s k v = ground (
    arith,
    v.indexed s k,
    count_key-keys_of k (streams_of s t.streams)
        (retain-IsMap (λ k e. k.ssrc == s) t.streams v.keyed),
    lookup-retain (λ k e. k.ssrc == s) k t.streams v.keyed,
  )

  only_one-sole :
      (keys : List StreamKey) (streams found : List (StreamKey × StreamEntry F))
      → ((k : StreamKey) → count_key k keys ≡ count_key k (keys_of found))
      → ((k : StreamKey) (e : StreamEntry F) → found ≡ (k, e) ∷ [] → lookup k streams ≡ some e)
      → only_one keys streams ≡ sole found
  unfolding only_one
  only_one-sole [] streams [] h g = refl
  only_one-sole (j ∷ []) streams ((k, e) ∷ []) h g = ground (arith, h k, g k e refl)
  only_one-sole (i ∷ j ∷ keys) streams (x ∷ y ∷ found) h g = refl
  only_one-sole [] streams ((k, e) ∷ found) h g = absurd (ground (arith, h k))
  only_one-sole (j ∷ keys) streams [] h g = absurd (ground (arith, h j))
  only_one-sole (j ∷ []) streams (x ∷ y ∷ found) h g =
      absurd (omega (arith, length-same (j ∷ []) (keys_of (x ∷ y ∷ found)) h))
  only_one-sole (i ∷ j ∷ keys) streams (x ∷ []) h g =
      absurd (omega (arith, length-same (i ∷ j ∷ keys) (keys_of (x ∷ [])) h))

  lookup_one : (k : StreamKey) (e : StreamEntry F) → lookup k ((k, e) ∷ []) ≡ some e
  unfolding lookup
  lookup_one k e = ground arith

  passed-some :
      (s : ℕ) (k : StreamKey) (o : Option (StreamEntry F)) (e : StreamEntry F)
      → passed (λ k e. k.ssrc == s) k o ≡ some e
      → o ≡ some e
  passed-some s k none e h = h
  passed-some s k (some e') e h = ground arith

  streams_of_found :
      (s : ℕ) (streams : List (StreamKey × StreamEntry F)) (k : StreamKey) (e : StreamEntry F)
      → IsMap streams
      → streams_of s streams ≡ (k, e) ∷ []
      → lookup k streams ≡ some e
  streams_of_found s streams k e v h =
      passed-some s k (lookup k streams) e
        (sym (lookup-retain (λ k e. k.ssrc == s) k streams v) ∙ (ap (lookup k) h ∙ lookup_one k e))

  select_stream-search_streams :
      (t : Tracker F) (s : ℕ) (src dst : Endpoint)
      → Indexed t
      → select_stream t s src dst ≡ search_streams t s src dst
  unfolding select_stream
  select_stream-search_streams t s src dst v =
      let keys = lookup_list s t.ssrc_index in
      let others : (k : StreamKey) → k.ssrc ≢ s → count_key k keys ≡ 0 =
        λ k n. ground (arith, v.indexed s k, n) in
      let at = λ (ep : Endpoint). first_at-stream_at ep s keys t.streams others in
      let counted = λ (ep : Endpoint). v.indexed s (record { endpoint = ep; ssrc = s }) in
      ground (
        arith,
        at (resolve t.rtcp_media dst),
        at (resolve t.rtcp_media src),
        counted (resolve t.rtcp_media dst),
        counted (resolve t.rtcp_media src),
        only_one-sole keys t.streams (streams_of s t.streams) (λ k. count_key-streams_of t s k v)
            (λ k e. streams_of_found s t.streams k e v.keyed),
      )

module _ {F : Type 0} ⦃fl : FloatOps F⦄ where
  -- After any calls of a new tracker an SSRC is resolved as by a search through all streams: to the
  -- one at the destination, else to the one at the source, a separate RTCP endpoint standing for its
  -- RTP endpoint, else to the only stream that has this SSRC, and otherwise to none.
  pub steps-select_stream :
      (ttl : ℕ) (xs : List Call) (s : ℕ) (src dst : Endpoint)
      → let t : Tracker F = steps (new_tracker ttl) xs in
        select_stream t s src dst ≡ search_streams t s src dst
  steps-select_stream ttl xs s src dst =
      select_stream-search_streams (steps (new_tracker ttl) xs) s src dst
        (steps-Indexed (new_tracker ttl) xs (new_tracker-Indexed ttl))
