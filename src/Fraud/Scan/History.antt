-- ===== src/Fraud/Scan/History.antt =====
-- The REGISTER scan tracker against the full history of every source.
use sip_exporter.Prelude.{
  ℕ, ◌<◌, ◌≤◌, ◌≡◌, ◌≢◌, refl, sym, ◌∙◌, true, List, [], ◌∷◌, leb, arith, String, String-discrete,
  string_key, none, some, ite, length,
}
use sip_exporter.Prelude.Assoc.{
  lookup, insert, retain, lookup_list, IsMap, insert-IsMap, lookup_list-insert,
}
use sip_exporter.Fraud.Scan.{
  Accounts, RegisterScanTracker, recent, recorded, record_register, cleanup_register, sweep_sources,
  register_scan_max_entries_per_ip, new_register_scan_tracker,
}
use sip_exporter.Fraud.Scan.Signals.{active_count}
use sip_exporter.Fraud.Scan.Kept.{
  Stands, later-Stands, recent-Stands, recorded-Stands, length-recorded, empty-Stands,
}

-- A call of the tracker, with its clock.
pub data Arrival : Type 0 where
  arrives : ℕ → String → String → Arrival
  tidies : ℕ → Arrival

abbrev pub clock_of : Arrival → ℕ
clock_of (arrives now src aor) = now
clock_of (tidies now) = now

abbrev pub serve : RegisterScanTracker → Arrival → RegisterScanTracker
serve t (arrives now src aor) = (record_register t now src aor).0
serve t (tidies now) = cleanup_register t now

abbrev pub serve_all : RegisterScanTracker → List Arrival → RegisterScanTracker
serve_all t [] = t
serve_all t (e ∷ es) = serve_all (serve t e) es

-- The clock does not go back.
abbrev pub InOrder : ℕ → ℕ → List Arrival → Type 0
InOrder last now [] = last ≤ now
InOrder last now (e ∷ es) = (last ≤ clock_of e) × InOrder (clock_of e) now es

-- Each account that the source ever registered, with the time of its last registration.
abbrev pub seen_with : String → Accounts → Arrival → Accounts
seen_with ip seen (tidies now) = seen
seen_with ip seen (arrives now src aor) =
    ite (String-discrete aor "") seen (ite (String-discrete src ip) (insert aor now seen) seen)

abbrev pub seen_after : String → Accounts → List Arrival → Accounts
seen_after ip seen [] = seen
seen_after ip seen (e ∷ es) = seen_after ip (seen_with ip seen e) es

lookup-sweep_none :
    (window now : ℕ) (ip : String) (m : List (String × Accounts))
    → lookup ip m ≡ none
    → lookup ip (sweep_sources window now m) ≡ none
unfolding lookup sweep_sources
lookup-sweep_none window now ip [] h = refl
lookup-sweep_none window now ip ((j, xs) ∷ m) h = ground (arith, lookup-sweep_none window now ip m)

recent_empty : (window now : ℕ) → recent window now [] ≡ []
unfolding recent retain
recent_empty window now = refl

length_none : (xs : Accounts) → leb (length xs) 0 ≡ true → xs ≡ []
length_none [] h = refl
length_none (x ∷ xs) h = absurd (ground (arith, h))

lookup_list-sweep :
    (window now : ℕ) (ip : String) (m : List (String × Accounts))
    → IsMap m
    → lookup_list ip (sweep_sources window now m) ≡ recent window now (lookup_list ip m)
unfolding lookup sweep_sources
lookup_list-sweep window now ip [] h = sym (recent_empty window now)
lookup_list-sweep window now ip ((j, xs) ∷ m) h = ground (
  arith,
  lookup_list-sweep window now ip m h.1,
  lookup-sweep_none window now ip m,
  length_none (recent window now xs),
)

sweep-IsMap :
    (window now : ℕ) (m : List (String × Accounts)) → IsMap m → IsMap (sweep_sources window now m)
unfolding sweep_sources
sweep-IsMap window now [] h = h
sweep-IsMap window now ((j, xs) ∷ m) h =
    ground (arith, sweep-IsMap window now m h.1, lookup-sweep_none window now j m)

serve-IsMap : (t : RegisterScanTracker) (e : Arrival) → IsMap t.entries → IsMap (serve t e).entries
unfolding record_register cleanup_register
serve-IsMap t (arrives now src aor) m =
    ground
      (arith, insert-IsMap src (recorded t.window now aor (lookup_list src t.entries)) t.entries m)
serve-IsMap t (tidies now) m = sweep-IsMap t.window now t.entries m

serve_settings :
    (t : RegisterScanTracker) (e : Arrival)
    → ((serve t e).threshold ≡ t.threshold) × ((serve t e).window ≡ t.window)
unfolding record_register cleanup_register
serve_settings t (arrives now src aor) = ground arith
serve_settings t (tidies now) = (refl, refl)

-- The accounts of a source after a registration by anyone.
lookup_list-arrival :
    (t : RegisterScanTracker) (now : ℕ) (src aor ip : String)
    → ip ≢ ""
    → lookup_list ip (record_register t now src aor).0.entries
      ≡ ite (String-discrete aor "") (lookup_list ip t.entries) (
          ite
            (String-discrete src ip)
            (recorded t.window now aor (lookup_list ip t.entries))
            (lookup_list ip t.entries))
unfolding record_register
lookup_list-arrival t now src aor ip named = ground (
  arith,
  named,
  lookup_list-insert src ip (recorded t.window now aor (lookup_list src t.entries)) t.entries,
)

arrival-Stands :
    (window last now : ℕ) (src aor ip : String) (accounts seen : Accounts)
    → last ≤ now
    → length seen < register_scan_max_entries_per_ip
    → Stands window last accounts seen
    → Stands window now
        (ite
          (String-discrete aor "")
          accounts
          (ite (String-discrete src ip) (recorded window now aor accounts) accounts))
        (seen_with ip seen (arrives now src aor))
arrival-Stands window last now src aor ip accounts seen h room v =
    let later = later-Stands window last now accounts seen h v in
    let new = recorded-Stands window last now aor accounts seen h room v in
    elim (String-discrete aor "")
      as (λ d.
        Stands window now
          (ite {C = Accounts} d accounts
            (ite (String-discrete src ip) (recorded window now aor accounts) accounts))
          (ite {C = Accounts} d seen (ite (String-discrete src ip) (insert aor now seen) seen))) [
            | yes nameless ↦ later
            | no named ↦
                elim (String-discrete src ip)
                  as (λ d.
                    Stands window now
                      (ite {C = Accounts} d (recorded window now aor accounts) accounts)
                      (ite {C = Accounts} d (insert aor now seen) seen)) [
                        | yes p ↦ new
                        | no n ↦ later
                      ]
          ]

serve-Stands :
    (window : ℕ) (t : RegisterScanTracker) (e : Arrival) (last : ℕ) (ip : String) (seen : Accounts)
    → t.window ≡ window
    → ip ≢ ""
    → last ≤ clock_of e
    → length seen < register_scan_max_entries_per_ip
    → IsMap t.entries
    → Stands window last (lookup_list ip t.entries) seen
    → Stands window (clock_of e) (lookup_list ip (serve t e).entries) (seen_with ip seen e)
unfolding cleanup_register
serve-Stands window t (arrives now src aor) last ip seen p named h room m v =
    rw (lookup_list-arrival t now src aor ip named, p)
      (arrival-Stands window last now src aor ip (lookup_list ip t.entries) seen h room v)
serve-Stands window t (tidies now) last ip seen p named h room m v =
    rw (lookup_list-sweep t.window now ip t.entries m, p)
      (recent-Stands window last now (lookup_list ip t.entries) seen h v)

length-insert-le : (a : String) (ts : ℕ) (m : Accounts) → length m ≤ length (insert a ts m)
unfolding insert
length-insert-le a ts [] = omega arith
length-insert-le a ts ((b, u) ∷ m) = ground (arith, length-insert-le a ts m)

length-seen_with-le :
    (ip : String) (seen : Accounts) (e : Arrival) → length seen ≤ length (seen_with ip seen e)
length-seen_with-le ip seen (tidies now) = omega arith
length-seen_with-le ip seen (arrives now src aor) = ground (arith, length-insert-le aor now seen)

length-seen_after-le :
    (ip : String) (seen : Accounts) (es : List Arrival)
    → length seen ≤ length (seen_after ip seen es)
length-seen_after-le ip seen [] = omega arith
length-seen_after-le ip seen (e ∷ es) =
    omega (arith, length-seen_with-le ip seen e, length-seen_after-le ip (seen_with ip seen e) es)

serve_all-Stands :
    (window : ℕ) (t : RegisterScanTracker) (es : List Arrival) (last now : ℕ) (ip : String)
    (seen : Accounts)
    → t.window ≡ window
    → ip ≢ ""
    → InOrder last now es
    → length (seen_after ip seen es) < register_scan_max_entries_per_ip
    → IsMap t.entries
    → Stands window last (lookup_list ip t.entries) seen
    → Stands window now (lookup_list ip (serve_all t es).entries) (seen_after ip seen es)
serve_all-Stands window t [] last now ip seen p named h room m v =
    later-Stands window last now (lookup_list ip t.entries) seen h v
serve_all-Stands window t (e ∷ es) last now ip seen p named h room m v =
    serve_all-Stands window (serve t e) es (clock_of e) now ip (seen_with ip seen e)
      ((serve_settings t e).1 ∙ p) named h.1 room (serve-IsMap t e m)
      (serve-Stands window t e last ip seen p named h.0
        (omega (arith, room, length-seen_after-le ip seen (e ∷ es))) m v)

serve_all_settings :
    (t : RegisterScanTracker) (es : List Arrival)
    → ((serve_all t es).threshold ≡ t.threshold) × ((serve_all t es).window ≡ t.window)
serve_all_settings t [] = (refl, refl)
serve_all_settings t (e ∷ es) =
    ground (arith, serve_all_settings (serve t e) es, serve_settings t e)

signal_of :
    (t : RegisterScanTracker) (now : ℕ) (ip aor : String)
    → ip ≢ ""
    → aor ≢ ""
    → (record_register t now ip aor).1
      ≡ leb t.threshold (length (recorded t.window now aor (lookup_list ip t.entries)))
unfolding record_register
signal_of t now ip aor named registered = ground arith

new_tracker :
    (threshold window : ℕ) (t : RegisterScanTracker)
    → new_register_scan_tracker threshold window ≡ some t
    → (t.threshold ≡ threshold) × (t.window ≡ window) × (t.entries ≡ [])
unfolding new_register_scan_tracker
new_tracker threshold window t e = ground arith

-- After any calls of a new tracker under a clock that does not go back, a registration raises the
-- signal just when the accounts whose last registration by this source, this one included, lies
-- within the window number at least the threshold, provided that the source has registered fewer
-- accounts in all than the cap: neither the loop that drops old accounts nor the clean-up ever
-- changes the answer.
pub record_register_signal :
    (threshold window : ℕ) (t : RegisterScanTracker) (es : List Arrival) (now : ℕ) (ip aor : String)
    → new_register_scan_tracker threshold window ≡ some t
    → InOrder 0 now es
    → ip ≢ ""
    → aor ≢ ""
    → length (seen_after ip [] es) < register_scan_max_entries_per_ip
    → (record_register (serve_all t es) now ip aor).1
      ≡ leb threshold (active_count window now (insert aor now (seen_after ip [] es)))
unfolding lookup
record_register_signal threshold window t es now ip aor made ordered named registered room =
    let (same_threshold, same_window, empty) = new_tracker threshold window t made in
    let u = serve_all t es in
    let settings = serve_all_settings t es in
    let no_entries : lookup_list ip t.entries ≡ [] = rw empty refl in
    let stands : Stands window now (lookup_list ip u.entries) (seen_after ip [] es) =
      serve_all-Stands window t es 0 now ip [] same_window named ordered room (rw empty tt)
        (rw no_entries (empty-Stands window)) in
    ground (
      arith,
      signal_of u now ip aor named registered,
      length-recorded window now now aor (lookup_list ip u.entries) (seen_after ip [] es)
          (omega arith) room stands,
      settings,
    )
