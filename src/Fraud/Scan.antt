-- ===== src/Fraud/Scan.antt =====
-- `registerScanTracker` of internal/exporter/fraud.go.
pub mod Signals
pub mod Kept
pub mod History
use sip_exporter.Prelude.{
  ℕ, ◌+◌, Bool, true, false, not, ◌||◌, String, List, [], ◌∷◌, Option, none, some, ite, ltb, leb,
  if◌then◌else◌, length, string_key, String-discrete,
}
use sip_exporter.Prelude.Assoc.{lookup, insert, delete, retain, lookup_list}

abbrev pub register_scan_max_entries_per_ip : ℕ
register_scan_max_entries_per_ip = 10000

-- The accounts that one source registered, with the time of each.
abbrev pub Accounts : Type 0
Accounts = List (String × ℕ)

pub record RegisterScanTracker : Type 0 where
  pub threshold : ℕ
  pub window : ℕ
  pub entries : List (String × Accounts)

-- A negative threshold or window is 0 here.
unfoldable pub new_register_scan_tracker : ℕ → ℕ → Option RegisterScanTracker
new_register_scan_tracker threshold window =
    if leb threshold 0 || leb window 0
    then none
    else some (record { threshold = threshold; window = window; entries = [] })

-- The accounts of one source after the loop that drops old ones.
unfoldable pub recent : ℕ → ℕ → Accounts → Accounts
recent window now accounts = retain (λ a ts. not (ltb (ts + window) now)) accounts

-- The accounts of the source after the call.
unfoldable pub recorded : ℕ → ℕ → String → Accounts → Accounts
recorded window now aor accounts =
    let kept = recent window now accounts in
    if ltb (length kept) register_scan_max_entries_per_ip then insert aor now kept else kept

-- `record`: the Bool is true where `RegisterScan` is called.
unfoldable pub record_register :
    RegisterScanTracker → ℕ → String → String → RegisterScanTracker × Bool
unfolding recorded
record_register t now src_ip aor =
    ite (String-discrete src_ip "") (t, false)
      (ite (String-discrete aor "") (t, false)
        (let accounts = recorded t.window now aor (lookup_list src_ip t.entries) in
          (
            record t { entries = insert src_ip accounts t.entries },
            leb t.threshold (length accounts),
          )))

-- `cleanup`: sources with no account left go.
unfoldable pub sweep_sources : ℕ → ℕ → List (String × Accounts) → List (String × Accounts)
sweep_sources window now [] = []
sweep_sources window now ((ip, accounts) ∷ rest) =
    let kept = recent window now accounts in
    if leb (length kept) 0
    then sweep_sources window now rest
    else (ip, kept) ∷ sweep_sources window now rest

unfoldable pub cleanup_register : RegisterScanTracker → ℕ → RegisterScanTracker
unfolding sweep_sources recent
cleanup_register t now = record t { entries = sweep_sources t.window now t.entries }
