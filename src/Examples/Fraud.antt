-- ===== src/Examples/Fraud.antt =====
-- internal/exporter/fraud.go at concrete inputs.
use text.Mathlib.TextEquality.{eq_iff}
use sip_exporter.Prelude.{
  ℕ, ◌+◌, ◌≤◌, ◌≡◌, ◌≢◌, refl, true, List, [], ◌∷◌, ◌++◌, some, arith, leb, String, String-discrete,
  string_key, nat_key,
}
use sip_exporter.Prelude.Assoc.{lookup, insert}
use sip_exporter.Fraud.Burst.{InviteBurstTracker, record_invite, new_invite_burst_tracker}
use sip_exporter.Fraud.Burst.Window.{recent_count}
use sip_exporter.Fraud.Burst.History.{Event, invite, cleans, steps, times_of, record_invite_signal}
use sip_exporter.Fraud.Scan.{RegisterScanTracker, record_register, new_register_scan_tracker}
use sip_exporter.Fraud.Scan.Signals.{active_count}
use sip_exporter.Fraud.Scan.History.{
  Arrival, arrives, tidies, serve_all, seen_after, record_register_signal,
}
use sip_exporter.Fraud.Answer.{FasTracker, FasEntry}
use sip_exporter.Fraud.Answer.Pending.{Call, stores, media, byes, sweeps, step}
use sip_exporter.Fraud.Answer.Reports.{count, next, reports_now, step-next}
use sip_exporter.Fraud.Answer.Times.{IsTimely, step-IsTimely}
use sip_exporter.Fraud.Answer.Totals.{
  steps as fas_steps, reports_of, stores_of, pending, reports_of-le-stores_of,
}

a_named : ◌≢◌ {A = String} "a" ""
a_named = ground (arith, eq_iff "a" "")

abbrev burst : InviteBurstTracker
burst = record { threshold = 2; window = 60; entries = [] }

abbrev events : List Event
events = invite 5 "a" ∷ invite 6 "b" ∷ invite 20 "a" ∷ cleans 70 ∷ []

record_invite_signal_example :
    (record_invite (steps burst events) 75 "a").1
    ≡ leb 2 (recent_count 60 75 (times_of "a" events ++ (75 ∷ [])))
record_invite_signal_example =
    record_invite_signal 2 60 burst events 75 "a" (unfold new_invite_burst_tracker in refl)
      (omega arith) a_named

abbrev scan : RegisterScanTracker
scan = record { threshold = 2; window = 60; entries = [] }

abbrev scanning : List Arrival
scanning = arrives 5 "a" "x" ∷ arrives 6 "b" "y" ∷ arrives 20 "a" "z" ∷ tidies 70 ∷ []

x_named : ◌≢◌ {A = String} "x" ""
x_named = ground (arith, eq_iff "x" "")

record_register_signal_example :
    (record_register (serve_all scan scanning) 75 "a" "x").1
    ≡ leb 2 (active_count 60 75 (insert "x" 75 (seen_after "a" [] scanning)))
unfolding insert
record_register_signal_example =
    record_register_signal 2 60 scan scanning 75 "a" "x" (unfold new_register_scan_tracker in refl)
      (ground arith) a_named x_named (ground arith)

abbrev blank : FasEntry
blank = record {
  created_at = 0;
  deadline = 0;
  bye_floor = 0;
  carrier = "acme";
  ua_type = "phone";
  source_country = "DE";
  direction = "inbound";
}

-- Endpoints are numbers here.
abbrev watched : FasTracker ℕ
watched = record { threshold = 10_000_000_000; entries = []; offer = [] }

abbrev answered : Call ℕ
answered = stores 5 "x" blank (7 ∷ []) true

step-next_example :
    (lookup "x" (step watched answered).0.entries
      ≡ next 10_000_000_000 "x" (lookup "x" watched.entries) (lookup "x" watched.offer) answered)
    × (count "x" (step watched answered).1 ≡ reports_now "x" (lookup "x" watched.entries) answered)
step-next_example = step-next watched answered "x" x_named tt

abbrev call_flow : List (Call ℕ)
call_flow = answered ∷ media "x" 9 5 "dst" ∷ byes 4_000_000_000 "x" ∷ sweeps 90_000_000_000 ∷ []

reports_of-le-stores_of_example :
    reports_of "x" watched call_flow + pending "x" (fas_steps watched call_flow)
    ≤ pending "x" watched + stores_of "x" call_flow
reports_of-le-stores_of_example = reports_of-le-stores_of watched call_flow "x" x_named tt

abbrev kept : FasEntry
kept = record blank { created_at = 5; deadline = 25_000_000_005; bye_floor = 3_000_000_005 }

step-IsTimely_example : IsTimely 10_000_000_000 kept
unfolding lookup String-discrete sip_exporter.Fraud.Answer.store insert
step-IsTimely_example = step-IsTimely watched answered "x" kept x_named tt nothing refl
  where
    nothing : (old : FasEntry) → lookup "x" watched.entries ≡ some old → IsTimely 10_000_000_000 old
    nothing old e = cc
