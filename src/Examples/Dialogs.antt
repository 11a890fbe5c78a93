-- ===== src/Examples/Dialogs.antt =====
-- internal/service/dialogs.go at concrete inputs.
use sip_exporter.Prelude.{
  ℕ, ◌+◌, ◌≡◌, ◌<◌, List, [], ◌∷◌, length, All, some_or, refl, String-discrete, string_key,
}
use sip_exporter.Prelude.Assoc.{lookup}
use sip_exporter.Dialogs.{
  Storage, DialogEntry, CleanupResult, cleanup, size, counts, key_of, count_key,
}
use sip_exporter.Dialogs.Store.{
  Call, creates, refreshes, cleans, deletes, table, steps, specs, table-steps,
}
use sip_exporter.Dialogs.Expiry.{
  expired_count, reported_count, unexpired, AreReports, ended, cleanup_reports,
}
use sip_exporter.Dialogs.Tally.{labelled, total, counts_exact}

abbrev entry : ℕ → DialogEntry
entry expires = record {
  expires_at = expires;
  created_at = 10;
  carrier = "acme";
  ua_type = "phone";
  source_country = "DE";
  destination_country = "FR";
  direction = "inbound";
  call_id = "c1";
}

abbrev calls : List Call
calls =
    creates (record { dialog_id = "d1"; entry = entry 50 })
    ∷ creates (record { dialog_id = "d1"; entry = entry 60 })
    ∷ refreshes "d1" 70
    ∷ cleans 65
    ∷ deletes 66 "d2"
    ∷ []

table-steps_example : table (steps [] calls) ≡ specs (table []) calls
table-steps_example = table-steps calls

abbrev active : Storage
active = ("d1", entry 50) ∷ ("d2", entry 90) ∷ []

cleanup_reports_example :
    (lookup "d2" (cleanup active 60).0 ≡ unexpired 60 (lookup "d2" active))
    × (size (cleanup active 60).0 + expired_count 60 active ≡ size active)
    × AreReports 60 (ended 60 active) (cleanup active 60).1
    × (length (cleanup active 60).1 ≡ reported_count 60 active)
    × All (λ (r : CleanupResult). 0 < r.duration) (cleanup active 60).1
unfolding lookup String-discrete
cleanup_reports_example = cleanup_reports active 60 "d2" (refl, (refl, tt))

counts_exact_example :
    (some_or (lookup (key_of (entry 0)) (counts active)) 0 ≡ labelled (key_of (entry 0)) active)
    × (total (counts active) ≡ size active)
counts_exact_example = counts_exact active (key_of (entry 0))
