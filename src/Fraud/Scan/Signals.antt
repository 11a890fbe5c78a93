-- ===== src/Fraud/Scan/Signals.antt =====
-- What `record` keeps of the accounts of one source.
use sip_exporter.Prelude.{
  ℕ, ◌+◌, ◌<◌, ◌≡◌, refl, not, [], ◌∷◌, ltb, arith, if◌then◌else◌, String, String-discrete,
  string_key, Option, none, some, ite, length,
}
use sip_exporter.Prelude.Assoc.{lookup, retain, IsMap, lookup-insert, lookup-retain}
use sip_exporter.Fraud.Scan.{Accounts, recent, recorded, register_scan_max_entries_per_ip}

-- The entry that the window still covers.
abbrev pub in_window : ℕ → ℕ → Option ℕ → Option ℕ
in_window window now none = none
in_window window now (some ts) = if ltb (ts + window) now then none else some ts

pub lookup-recent :
    (window now : ℕ) (a : String) (accounts : Accounts)
    → IsMap accounts
    → lookup a (recent window now accounts) ≡ in_window window now (lookup a accounts)
unfolding recent
lookup-recent window now a accounts m =
    ground (arith, lookup-retain (λ a ts. not (ltb (ts + window) now)) a accounts m)

-- While there is room, `record` stamps the account with the current time, keeps every other account
-- that the window covers, and drops those that it does not.
pub lookup-recorded :
    (window now : ℕ) (aor a : String) (accounts : Accounts)
    → IsMap accounts
    → length (recent window now accounts) < register_scan_max_entries_per_ip
    → lookup a (recorded window now aor accounts)
      ≡ ite (String-discrete aor a) (some now) (in_window window now (lookup a accounts))
unfolding recorded
lookup-recorded window now aor a accounts m h = ground (
  arith,
  lookup-insert aor a now (recent window now accounts),
  lookup-recent window now a accounts m,
)

-- How many accounts the window covers.
abbrev pub active_count : ℕ → ℕ → Accounts → ℕ
active_count window now [] = 0
active_count window now ((a, ts) ∷ accounts) =
    (if ltb (ts + window) now then 0 else 1) + active_count window now accounts

pub length-recent :
    (window now : ℕ) (accounts : Accounts)
    → length (recent window now accounts) ≡ active_count window now accounts
unfolding recent retain
length-recent window now [] = refl
length-recent window now ((a, ts) ∷ accounts) = ground (arith, length-recent window now accounts)
