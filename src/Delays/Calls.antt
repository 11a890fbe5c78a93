-- ===== src/Delays/Calls.antt =====
-- What each call measures, against the requests that wait.
use sip_exporter.Prelude.{
  ℕ, ◌+◌, ◌≡◌, ◌≤◌, true, false, List, [], ◌∷◌, ◌++◌, some, ◌==◌, arith, Option-cases, Bool-cases,
  inl, inr,
}
use sip_exporter.Prelude.Assoc.{lookup, lookup-insert}
use sip_exporter.Prelude.Int.{ℤ}
use sip_exporter.Text.{Bytes}
use sip_exporter.Invites.{bytes_key}
use sip_exporter.Delays.{
  Labels, InviteEntry, RequestEntry, RegisterEntry, Delays, Measure, remove_invite_time,
  mark_ttr_measured, mark_pdd_measured, measure_ttr, measure_pdd, handle_provisional_response,
  handle_invite_response, store_options_time, measure_options_time, store_bye_time,
  measure_bye_time, store_register_time, remove_register_time, handle_register_200,
  handle_register_non_200, cleanup_register_tracker, cleanup_invite_tracker,
  cleanup_options_tracker, cleanup_bye_tracker, stores_options, stores_bye, stores_register, since,
}
use sip_exporter.Delays.Waiting.{
  Slot, stored, measures_of, waits, AreMaps, awaits-insert, awaits-delete, awaits-cleanup,
}

pub answered_options :
    (s : Slot) (c : Bytes) (t : Delays) (d direction : Bytes) (now : ℕ)
    → measures_of s c (measure_options_time t d direction now).1
        + waits s c (measure_options_time t d direction now).0
      ≤ waits s c t
unfolding measure_options_time
answered_options s c t d direction now = elim (Option-cases (lookup d t.options_tracker)) [
  | inl absent ↦ ground (arith, absent, awaits-delete (λ e. false) c d t.options_tracker)
  | inr (e, found) ↦ ground (arith, found, awaits-delete (λ e. false) c d t.options_tracker)
]

pub answered_bye :
    (s : Slot) (c : Bytes) (t : Delays) (d direction : Bytes) (now : ℕ)
    → measures_of s c (measure_bye_time t d direction now).1
        + waits s c (measure_bye_time t d direction now).0
      ≤ waits s c t
unfolding measure_bye_time
answered_bye s c t d direction now = elim (Option-cases (lookup d t.bye_tracker)) [
  | inl absent ↦ ground (arith, absent, awaits-delete (λ e. false) c d t.bye_tracker)
  | inr (e, found) ↦ ground (arith, found, awaits-delete (λ e. false) c d t.bye_tracker)
]

pub removed_invite :
    (s : Slot) (c : Bytes) (t : Delays) (d : Bytes)
    → waits s c (remove_invite_time t d) ≤ waits s c t
unfolding remove_invite_time
removed_invite s c t d = ground (
  arith,
  awaits-delete (λ e. e.ttr_measured) c d t.invite_tracker,
  awaits-delete (λ e. e.pdd_measured) c d t.invite_tracker,
)

removed_register :
    (s : Slot) (c : Bytes) (t : Delays) (d : Bytes)
    → waits s c (remove_register_time t d) ≤ waits s c t
unfolding remove_register_time
removed_register s c t d = ground (arith, awaits-delete (λ e. false) c d t.register_tracker)

pub accepted_register :
    (s : Slot) (c : Bytes) (t : Delays) (d : Bytes) (own : Labels × Bytes) (now : ℕ)
    → measures_of s c (handle_register_200 t d own now).1
        + waits s c (handle_register_200 t d own now).0
      ≤ waits s c t
unfolding handle_register_200 remove_register_time
accepted_register s c t d own now = elim (Option-cases (lookup d t.register_tracker)) [
  | inl absent ↦ rw (handle_register_200, absent) (omega arith)
  | inr (e, found) ↦
      rw (handle_register_200, found)
        (ground (arith, found, awaits-delete (λ e. false) c d t.register_tracker))
]

measured_ttr :
    (s : Slot) (c : Bytes) (t : Delays) (d : Bytes) (e : InviteEntry) (delay : ℤ)
    → lookup d t.invite_tracker ≡ some e
    → measures_of s c (measure_ttr t d e delay).1 + waits s c (measure_ttr t d e delay).0
      ≤ waits s c t
unfolding measure_ttr mark_ttr_measured
measured_ttr s c t d e delay found = ground (
  arith,
  found,
  awaits-insert (λ e. e.ttr_measured) c d (record e { ttr_measured = true }) t.invite_tracker,
  awaits-insert (λ e. e.pdd_measured) c d (record e { ttr_measured = true }) t.invite_tracker,
)

measured_pdd :
    (s : Slot) (c : Bytes) (t : Delays) (d : Bytes) (e f : InviteEntry) (delay : ℤ) (status : Bytes)
    → lookup d t.invite_tracker ≡ some f
    → measures_of s c (measure_pdd t d e delay status).1
        + waits s c (measure_pdd t d e delay status).0
      ≤ waits s c t
unfolding measure_pdd mark_pdd_measured
measured_pdd s c t d e f delay status found = ground (
  arith,
  found,
  awaits-insert (λ g. g.ttr_measured) c d (record f { pdd_measured = true }) t.invite_tracker,
  awaits-insert (λ g. g.pdd_measured) c d (record f { pdd_measured = true }) t.invite_tracker,
)

abbrev marked : InviteEntry → InviteEntry
marked e = record e { ttr_measured = true }

-- The entry of a response is still there when the second measure is taken.
kept_entry :
    (t : Delays) (d : Bytes) (e : InviteEntry) (delay : ℤ)
    → lookup d t.invite_tracker ≡ some e
    → (f : InviteEntry) × (lookup d (measure_ttr t d e delay).0.invite_tracker ≡ some f)
unfolding measure_ttr mark_ttr_measured
kept_entry t d e delay found = elim (Bool-cases e.ttr_measured) [
  | inl before ↦ (e, ground (arith, found, before))
  | inr first ↦
      (marked e, ground (arith, found, first, lookup-insert d d (marked e) t.invite_tracker))
]

pub measures_of-append :
    (s : Slot) (c : Bytes) (xs ys : List Measure)
    → measures_of s c (xs ++ ys) ≡ measures_of s c xs + measures_of s c ys
measures_of-append s c [] ys = omega arith
measures_of-append s c (m ∷ xs) ys = omega (arith, measures_of-append s c xs ys)

provisional :
    (s : Slot) (c : Bytes) (t : Delays) (d status : Bytes) (now : ℕ)
    → measures_of s c (handle_provisional_response t d status now).1
        + waits s c (handle_provisional_response t d status now).0
      ≤ waits s c t
unfolding handle_provisional_response
provisional s c t d status now = elim (Option-cases (lookup d t.invite_tracker)) [
  | inl absent ↦ rw (handle_provisional_response, absent) (omega arith)
  | inr (e, found) ↦
      let delay = since now e.timestamp in
      let (t1, first) = measure_ttr t d e delay in
      let (t2, second) = measure_pdd t1 d e delay status in
      let (f, kept) = kept_entry t d e delay found in
      rw (handle_provisional_response, found)
        (omega (
          arith,
          measured_ttr s c t d e delay found,
          measured_pdd s c t1 d e f delay status kept,
          measures_of-append s c first second,
        ))
]

pub answered_invite :
    (s : Slot) (c : Bytes) (t : Delays) (d status : Bytes) (now : ℕ)
    → measures_of s c (handle_invite_response t d status now).1
        + waits s c (handle_invite_response t d status now).0
      ≤ waits s c t
unfolding handle_invite_response
answered_invite s c t d [] now = omega arith
answered_invite s c t d (x ∷ status) now = elim (Bool-cases (x == b'1')) [
  | inl answer ↦ rw (handle_invite_response, answer) (provisional s c t d (x ∷ status) now)
  | inr final ↦ rw (handle_invite_response, final) (omega (arith, removed_invite s c t d))
]

pub redirected :
    (s : Slot) (c : Bytes) (t : Delays) (d : Bytes) (own : Labels × Bytes) (status : Bytes)
    (now : ℕ)
    → measures_of s c (handle_register_non_200 t d own status now).1
        + waits s c (handle_register_non_200 t d own status now).0
      ≤ waits s c t
unfolding handle_register_non_200 remove_register_time
redirected s c t d own [] now = omega (arith, removed_register s c t d)
redirected s c t d own (x ∷ status) now = elim (Bool-cases (x == b'3')) [
  | inr refused ↦ rw (handle_register_non_200, refused) (omega (arith, removed_register s c t d))
  | inl moved ↦ elim (Option-cases (lookup d t.register_tracker)) [
    | inl absent ↦ rw (handle_register_non_200, moved, absent) (omega arith)
    | inr (e, found) ↦
        rw (handle_register_non_200, moved, found)
          (ground (arith, found, awaits-delete (λ g. false) c d t.register_tracker))
  ]
]

pub stored_request :
    (s : Slot) (c : Bytes) (t : Delays) (d : Bytes) (labels : Labels) (src_ip : Bytes) (now : ℕ)
    → (waits s c (store_options_time t d labels now)
        ≤ stored s c (stores_options d labels now) + waits s c t)
      × (waits s c (store_bye_time t d labels now)
          ≤ stored s c (stores_bye d labels now) + waits s c t)
      × (waits s c (store_register_time t d labels src_ip now)
          ≤ stored s c (stores_register d labels src_ip now) + waits s c t)
unfolding store_options_time store_bye_time store_register_time
stored_request s c t d labels src_ip now =
    let request : RequestEntry = record { timestamp = now; labels = labels } in
    let register : RegisterEntry = record { timestamp = now; labels = labels; src_ip = src_ip } in
    (
      ground (arith, awaits-insert (λ e. false) c d request t.options_tracker),
      ground (arith, awaits-insert (λ e. false) c d request t.bye_tracker),
      ground (arith, awaits-insert (λ e. false) c d register t.register_tracker),
    )

pub cleaned :
    (s : Slot) (c : Bytes) (t : Delays) (now : ℕ)
    → AreMaps t
    → (waits s c (cleanup_register_tracker t now) ≤ waits s c t)
      × (waits s c (cleanup_invite_tracker t now) ≤ waits s c t)
      × (waits s c (cleanup_options_tracker t now) ≤ waits s c t)
      × (waits s c (cleanup_bye_tracker t now) ≤ waits s c t)
unfolding cleanup_register_tracker cleanup_invite_tracker cleanup_options_tracker
    cleanup_bye_tracker
cleaned s c t now h = (
  ground
      (arith, awaits-cleanup (λ e. false) c (λ e. e.timestamp) now t.register_tracker h.registers),
  ground (
    arith,
    awaits-cleanup (λ e. e.ttr_measured) c (λ e. e.timestamp) now t.invite_tracker h.invites,
    awaits-cleanup (λ e. e.pdd_measured) c (λ e. e.timestamp) now t.invite_tracker h.invites,
  ),
  ground (arith, awaits-cleanup (λ e. false) c (λ e. e.timestamp) now t.options_tracker h.requests),
  ground (arith, awaits-cleanup (λ e. false) c (λ e. e.timestamp) now t.bye_tracker h.byes),
)
