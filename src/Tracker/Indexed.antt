-- ===== src/Tracker/Indexed.antt =====
-- The streams against the index of their SSRCs.
pub mod Steps
pub mod Select
use sip_exporter.Prelude.{
  ℕ, zero, suc, ◌+◌, ◌-◌, ◌≡◌, refl, Bool, true, false, ◌&&◌, List, [], ◌∷◌, ◌++◌, Option, none,
  some, is_some, ite, ◌==◌, if◌then◌else◌, length, nat_key, ltb, arith, ℕ_discrete, Option-cases,
  Bool-cases, inl, inr,
}
use sip_exporter.Prelude.Assoc.{
  lookup, insert, delete, lookup_list, lookup_list-insert, lookup_list-delete, lookup-insert,
  lookup-delete, IsMap, insert-IsMap, delete-IsMap,
}
use sip_exporter.Tracker.{StreamKey, StreamKey-discrete, stream_key, StreamEntry, Tracker}
use sip_exporter.Tracker.Index.{remove_key, has_key, remove_ssrc_index, drop_stream, drop_streams}

abbrev pub count_key : StreamKey → List StreamKey → ℕ
count_key k [] = 0
count_key k (j ∷ keys) = ite (StreamKey-discrete j k) 1 0 + count_key k keys

count_key-append_one :
    (k j : StreamKey) (keys : List StreamKey)
    → count_key k (keys ++ (j ∷ [])) ≡ count_key k keys + ite (StreamKey-discrete j k) 1 0
count_key-append_one k j [] = omega arith
count_key-append_one k j (i ∷ keys) = omega (arith, count_key-append_one k j keys)

pub count_key-remove_key :
    (k j : StreamKey) (keys : List StreamKey)
    → count_key k (remove_key j keys) ≡ count_key k keys - ite (StreamKey-discrete j k) 1 0
unfolding remove_key
count_key-remove_key k j [] = omega arith
count_key-remove_key k j (i ∷ keys) = ground (arith, count_key-remove_key k j keys)

has_key-absent :
    (k : StreamKey) (keys : List StreamKey) → has_key k keys ≡ false → count_key k keys ≡ 0
has_key-absent k [] h = refl
has_key-absent k (j ∷ keys) h = ground (arith, has_key-absent k keys)

-- A list of one key that has `j` has no other.
only_key :
    (k j : StreamKey) (keys : List StreamKey)
    → has_key j keys ≡ true
    → (length keys == 1) ≡ true
    → count_key k keys ≡ ite (StreamKey-discrete j k) 1 0
only_key k j [] h e = absurd (ground arith)
only_key k j (i ∷ []) h e = ground arith
only_key k j (i ∷ l ∷ keys) h e = absurd (ground arith)

abbrev once : StreamKey → StreamKey → ℕ → ℕ
once j k s = ite (StreamKey-discrete j k) (ite (ℕ_discrete j.ssrc s) 1 0) 0

count_key-remove_ssrc_index :
    (s : ℕ) (k j : StreamKey) (index : List (ℕ × List StreamKey))
    → count_key k (lookup_list s (remove_ssrc_index j index))
      ≡ count_key k (lookup_list s index) - once j k s
unfolding remove_ssrc_index
count_key-remove_ssrc_index s k j index = ground (
  arith,
  lookup_list-insert j.ssrc s (remove_key j (lookup_list j.ssrc index)) index,
  lookup_list-delete j.ssrc s index,
  count_key-remove_key k j (lookup_list j.ssrc index),
  has_key-absent k (lookup_list j.ssrc index),
  only_key k j (lookup_list j.ssrc index),
)

module _ {F : Type 0} where
  -- A key stands once under its own SSRC where it has a stream, and nowhere else.
  abbrev pub expected : List (StreamKey × StreamEntry F) → ℕ → StreamKey → ℕ
  expected streams s k = ite (ℕ_discrete k.ssrc s) (if is_some (lookup k streams) then 1 else 0) 0

  pub record Indexed (t : Tracker F) : Type 0 where
    pub indexed :
        (s : ℕ) (k : StreamKey) → count_key k (lookup_list s t.ssrc_index) ≡ expected t.streams s k
    pub keyed : IsMap t.streams

  pub drop_stream-Indexed : (j : StreamKey) (t : Tracker F) → Indexed t → Indexed (drop_stream j t)
  unfolding drop_stream
  drop_stream-Indexed j t v = record {
    indexed = λ s k. ground (
      arith,
      v.indexed s k,
      count_key-remove_ssrc_index s k j t.ssrc_index,
      lookup-delete j k t.streams,
    );
    keyed = delete-IsMap j t.streams v.keyed;
  }

  pub drop_streams-Indexed :
      (p : StreamKey → StreamEntry F → Bool) (xs : List (StreamKey × StreamEntry F)) (t : Tracker F)
      → Indexed t
      → Indexed (drop_streams p xs t)
  unfolding drop_streams
  drop_streams-Indexed p [] t v = v
  drop_streams-Indexed p ((k, e) ∷ xs) t v = elim (Bool-cases (p k e)) [
    | inl gone ↦ rw gone (drop_streams-Indexed p xs (drop_stream k t) (drop_stream-Indexed k t v))
    | inr kept ↦ rw kept (drop_streams-Indexed p xs t v)
  ]

  -- Streams and index are all that matters.
  pub same-Indexed :
      (t u : Tracker F)
      → u.streams ≡ t.streams
      → u.ssrc_index ≡ t.ssrc_index
      → Indexed t
      → Indexed u
  same-Indexed t u streams index v = record {
    indexed = λ s k. rw (streams, index) (v.indexed s k);
    keyed = rw streams v.keyed;
  }

  -- A stream that is there already changes.
  pub update-Indexed :
      (t : Tracker F) (j : StreamKey) (e e' : StreamEntry F)
      → lookup j t.streams ≡ some e
      → Indexed t
      → Indexed (record t { streams = insert j e' t.streams })
  update-Indexed t j e e' found v = record {
    indexed = λ s k. ground (arith, v.indexed s k, lookup-insert j k e' t.streams);
    keyed = insert-IsMap j e' t.streams v.keyed;
  }

  pub added-Indexed :
      (t : Tracker F) (j : StreamKey) (e : StreamEntry F)
      → lookup j t.streams ≡ none
      → Indexed t
      → Indexed (record t {
        streams = insert j e t.streams;
        ssrc_index = insert j.ssrc (lookup_list j.ssrc t.ssrc_index ++ (j ∷ [])) t.ssrc_index;
      })
  added-Indexed t j e absent v = record {
    indexed = λ s k. ground (
      arith,
      v.indexed s k,
      v.indexed j.ssrc k,
      lookup-insert j k e t.streams,
      lookup_list-insert j.ssrc s (lookup_list j.ssrc t.ssrc_index ++ (j ∷ [])) t.ssrc_index,
      count_key-append_one k j (lookup_list j.ssrc t.ssrc_index),
    );
    keyed = insert-IsMap j e t.streams v.keyed;
  }
