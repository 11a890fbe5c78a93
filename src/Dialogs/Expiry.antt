-- ===== src/Dialogs/Expiry.antt =====
-- What `Cleanup` and `Delete` report.
use sip_exporter.Prelude.{
  ℕ, ◌+◌, ◌<◌, ◌≡◌, refl, true, false, List, Option, none, some, String, Bool-cases, inl, inr, not,
  ◌&&◌, [], ◌∷◌, arith, length, All, ltb, if◌then◌else◌, string_key,
}
use sip_exporter.Prelude.Assoc.{lookup, retain, IsMap, lookup-retain}
use sip_exporter.Dialogs.{
  DialogEntry, Storage, CleanupResult, is_expired, expired_results, cleanup, size,
}

-- Dialogs that have expired, and those of them whose duration is positive.
abbrev pub expired_count : ℕ → Storage → ℕ
expired_count now [] = 0
expired_count now ((id, e) ∷ c) = (if is_expired now e then 1 else 0) + expired_count now c

abbrev pub reported_count : ℕ → Storage → ℕ
reported_count now [] = 0
reported_count now ((id, e) ∷ c) =
    (if is_expired now e && ltb e.created_at now then 1 else 0) + reported_count now c

length-retain_live :
    (now : ℕ) (c : Storage)
    → length (retain (λ id e. not (is_expired now e)) c) + expired_count now c ≡ length c
unfolding retain
length-retain_live now [] = omega arith
length-retain_live now ((id, e) ∷ c) = ground (arith, length-retain_live now c)

length-expired_results :
    (now : ℕ) (c : Storage) → length (expired_results now c) ≡ reported_count now c
unfolding expired_results
length-expired_results now [] = omega arith
length-expired_results now ((id, e) ∷ c) = ground (arith, length-expired_results now c)

expired_results_positive :
    (now : ℕ) (c : Storage) → All (λ (r : CleanupResult). 0 < r.duration) (expired_results now c)
unfolding expired_results
expired_results_positive now [] = tt
expired_results_positive now ((id, e) ∷ c) = ground (arith, expired_results_positive now c)

-- The dialogs of the store whose expiry is past and that lasted, each with its name.
abbrev pub ended : ℕ → Storage → Storage
ended now [] = []
ended now ((id, e) ∷ c) =
    let rest = ended now c in
    if ltb e.expires_at now && ltb e.created_at now then (id, e) ∷ rest else rest

-- A report is that of a dialog: it lasted until now, and the labels are its own.
pub record IsReport (now : ℕ) (e : DialogEntry) (r : CleanupResult) : Type 0 where
  pub lasted : e.created_at + r.duration ≡ now
  pub carrier : r.carrier ≡ e.carrier
  pub ua_type : r.ua_type ≡ e.ua_type
  pub source_country : r.source_country ≡ e.source_country
  pub destination_country : r.destination_country ≡ e.destination_country
  pub direction : r.direction ≡ e.direction
  pub call_id : r.call_id ≡ e.call_id

-- The reports are those of the dialogs, one for each, in their order.
abbrev pub AreReports : ℕ → Storage → List CleanupResult → Type 0
AreReports now [] [] = Unit {0}
AreReports now [] (r ∷ rs) = true ≡ false
AreReports now ((id, e) ∷ c) [] = true ≡ false
AreReports now ((id, e) ∷ c) (r ∷ rs) = IsReport now e r × AreReports now c rs

expired_results_reports :
    (now : ℕ) (c : Storage) → AreReports now (ended now c) (expired_results now c)
unfolding expired_results
expired_results_reports now [] = tt
expired_results_reports now ((id, e) ∷ c) =
    let rest = expired_results_reports now c in
    elim (Bool-cases (ltb e.expires_at now)) [
      | inr live ↦ rw (live, expired_results) rest
      | inl expired ↦ elim (Bool-cases (ltb e.created_at now)) [
        | inr no_time ↦ rw (expired, no_time, expired_results) rest
        | inl lasted ↦
            rw (expired, lasted, expired_results)
              (
                record {
                  lasted = ground (arith, lasted);
                  carrier = refl;
                  ua_type = refl;
                  source_country = refl;
                  destination_country = refl;
                  direction = refl;
                  call_id = refl;
                },
                rest,
              )
      ]
    ]

-- The dialog under an identifier, unless its expiry is past.
abbrev pub unexpired : ℕ → Option DialogEntry → Option DialogEntry
unexpired now none = none
unexpired now (some e) = if ltb e.expires_at now then none else some e

lookup-live :
    (now : ℕ) (c : Storage) (id : String)
    → IsMap c
    → lookup id (retain (λ k e. not (is_expired now e)) c) ≡ unexpired now (lookup id c)
lookup-live now c id m = ground (arith, lookup-retain (λ k e. not (is_expired now e)) id c m)

-- After `Cleanup` the store has under each identifier the dialog that it had, unless its expiry is
-- past, and is smaller by the number of expired dialogs. The reports are those of the expired dialogs
-- that lasted, one for each, with the time from its creation until now and with its own labels; every
-- reported duration is positive.
pub cleanup_reports :
    (c : Storage) (now : ℕ) (id : String)
    → IsMap c
    → (lookup id (cleanup c now).0 ≡ unexpired now (lookup id c))
      × (size (cleanup c now).0 + expired_count now c ≡ size c)
      × AreReports now (ended now c) (cleanup c now).1
      × (length (cleanup c now).1 ≡ reported_count now c)
      × All (λ (r : CleanupResult). 0 < r.duration) (cleanup c now).1
unfolding cleanup size
cleanup_reports c now id m = (
  lookup-live now c id m,
  length-retain_live now c,
  expired_results_reports now c,
  length-expired_results now c,
  expired_results_positive now c,
)
