-- ===== src/Fraud/Burst.antt =====
-- `inviteBurstTracker` of internal/exporter/fraud.go.
pub mod Window
pub mod History
use sip_exporter.Prelude.{
  ℕ, ◌+◌, ◌-◌, Bool, true, false, ◌||◌, String, List, [], ◌∷◌, ◌++◌, Option, none, some, ite, ltb,
  leb, if◌then◌else◌, length, drop, string_key, String-discrete,
}
use sip_exporter.Prelude.Assoc.{insert, lookup_list}

pub record InviteBurstTracker : Type 0 where
  pub threshold : ℕ
  pub window : ℕ
  pub entries : List (String × List ℕ)

unfoldable pub new_invite_burst_tracker : ℕ → ℕ → Option InviteBurstTracker
new_invite_burst_tracker threshold window =
    if leb threshold 0 || leb window 0
    then none
    else some (record { threshold = threshold; window = window; entries = [] })

-- `entries[i:]` after the loop that counts the old ones at the front.
unfoldable pub drop_old : ℕ → ℕ → List ℕ → List ℕ
drop_old window now [] = []
drop_old window now (ts ∷ rest) =
    let later = drop_old window now rest in if ltb (ts + window) now then later else ts ∷ rest

-- The newest `threshold + 1` entries.
unfoldable pub trim : ℕ → List ℕ → List ℕ
trim threshold entries =
    if ltb (threshold + 1) (length entries)
    then drop (length entries - threshold - 1) entries
    else entries

-- The entries of the source after a call.
unfoldable pub recorded : ℕ → ℕ → ℕ → List ℕ → List ℕ
unfolding drop_old trim
recorded threshold window now entries = trim threshold (drop_old window now entries ++ (now ∷ []))

-- `record`: the Bool is true where `InviteBurst` is called.
unfoldable pub record_invite : InviteBurstTracker → ℕ → String → InviteBurstTracker × Bool
unfolding recorded
record_invite t now src_ip =
    ite (String-discrete src_ip "") (t, false)
      (let entries = recorded t.threshold t.window now (lookup_list src_ip t.entries) in
        (record t { entries = insert src_ip entries t.entries }, leb t.threshold (length entries)))

unfoldable pub sweep_sources : ℕ → ℕ → List (String × List ℕ) → List (String × List ℕ)
sweep_sources window now [] = []
sweep_sources window now ((ip, entries) ∷ rest) =
    let kept = drop_old window now entries in
    if leb (length kept) 0
    then sweep_sources window now rest
    else (ip, kept) ∷ sweep_sources window now rest

unfoldable pub cleanup_invite : InviteBurstTracker → ℕ → InviteBurstTracker
unfolding sweep_sources drop_old
cleanup_invite t now = record t { entries = sweep_sources t.window now t.entries }
