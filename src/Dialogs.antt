-- ===== src/Dialogs.antt =====
-- internal/service/dialogs.go: the store of active SIP dialogs. Each call runs under the mutex, so
-- it is one step; `now` is the clock that the call reads. Times and durations are nanoseconds.
pub mod Store
pub mod Expiry
pub mod Tally
use sip_exporter.Prelude.{
  ℕ, zero, suc, ◌+◌, ◌-◌, Bool, true, false, not, String, List, [], ◌∷◌, ◌++◌, Option, none, some,
  ite, ltb, leb, if◌then◌else◌, is_some, length, string_key, Key, String-discrete,
}
use sip_exporter.Prelude.Assoc.{lookup, insert, delete, retain}

pub record DialogEntry : Type 0 where
  pub expires_at : ℕ
  pub created_at : ℕ
  pub carrier : String
  pub ua_type : String
  pub source_country : String
  pub destination_country : String
  pub direction : String
  pub call_id : String

pub record DialogParams : Type 0 where
  pub dialog_id : String
  pub entry : DialogEntry

pub record CleanupResult : Type 0 where
  pub duration : ℕ
  pub carrier : String
  pub ua_type : String
  pub source_country : String
  pub destination_country : String
  pub direction : String
  pub call_id : String

abbrev pub Storage : Type 0
Storage = List (String × DialogEntry)

-- The zero value that `Delete` returns for an unknown dialog.
abbrev pub no_result : CleanupResult
no_result = record {
  duration = 0;
  carrier = "";
  ua_type = "";
  source_country = "";
  destination_country = "";
  direction = "";
  call_id = "";
}

abbrev pub result_of : ℕ → DialogEntry → CleanupResult
result_of duration e = record {
  duration = duration;
  carrier = e.carrier;
  ua_type = e.ua_type;
  source_country = e.source_country;
  destination_country = e.destination_country;
  direction = e.direction;
  call_id = e.call_id;
}

-- `Delete`: a clock that went back gives the duration 0.
unfoldable pub delete_dialog : Storage → ℕ → String → Storage × CleanupResult
delete_dialog c now id = elim (lookup id c) [
  | none ↦ (c, no_result)
  | some e ↦ (
    delete id c,
    if ltb now e.created_at then result_of 0 e else result_of (now - e.created_at) e,
  )
]

unfoldable pub create : Storage → DialogParams → Storage
create c p = if not (is_some (lookup p.dialog_id c)) then insert p.dialog_id p.entry c else c

unfoldable pub has_active_dialog : Storage → String → Bool
has_active_dialog c id = is_some (lookup id c)

unfoldable pub refresh : Storage → String → ℕ → Storage × Bool
refresh c id expires_at = elim (lookup id c) [
  | none ↦ (c, false)
  | some e ↦ (insert id (record e { expires_at = expires_at }) c, true)
]

unfoldable pub size : Storage → ℕ
size c = length c

-- `now.After(entry.expiresAt)`
abbrev pub is_expired : ℕ → DialogEntry → Bool
is_expired now e = ltb e.expires_at now

-- The results of the loop of `Cleanup`: those expired with a positive duration.
unfoldable pub expired_results : ℕ → Storage → List CleanupResult
expired_results now [] = []
expired_results now ((id, e) ∷ c) =
    if is_expired now e
    then (if ltb e.created_at now
        then result_of (now - e.created_at) e ∷ expired_results now c
        else expired_results now c)
    else expired_results now c

unfoldable pub cleanup : Storage → ℕ → Storage × List CleanupResult
unfolding expired_results
cleanup c now = (retain (λ id e. not (is_expired now e)) c, expired_results now c)

-- The struct that `Counts` groups by.
pub record CountKey : Type 0 where
  pub carrier : String
  pub ua_type : String
  pub source_country : String
  pub direction : String

pub CountKey-discrete : Discrete CountKey
CountKey-discrete = hlevel String-discrete

instance abbrev pub count_key : Key CountKey
count_key = record { same = CountKey-discrete }

abbrev pub key_of : DialogEntry → CountKey
key_of e = record {
  carrier = e.carrier;
  ua_type = e.ua_type;
  source_country = e.source_country;
  direction = e.direction;
}

-- `tmp[k]++`, where a missing key reads 0.
unfoldable pub bump : CountKey → List (CountKey × ℕ) → List (CountKey × ℕ)
bump k tmp = elim (lookup k tmp) [ none ↦ insert k 1 tmp | some n ↦ insert k (n + 1) tmp ]

unfoldable pub counts_from : Storage → List (CountKey × ℕ) → List (CountKey × ℕ)
counts_from [] tmp = tmp
counts_from ((id, e) ∷ c) tmp = counts_from c (bump (key_of e) tmp)

-- `Counts`: a labelled count for each key of `tmp`.
unfoldable pub counts : Storage → List (CountKey × ℕ)
unfolding counts_from bump
counts c = counts_from c []
