-- ===== src/Fraud/Answer/Totals.antt =====
-- The FAS tracker over any sequence of calls.
use sip_exporter.Prelude.{
  ℕ, ◌+◌, ◌≤◌, ◌≢◌, refl, Bool, List, [], ◌∷◌, arith, if◌then◌else◌, is_some, String,
  String-discrete, string_key, Key, ite, Option, Option-cases, inl, inr,
}
use sip_exporter.Prelude.Assoc.{lookup, IsMap, insert-IsMap, delete-IsMap}
use sip_exporter.Fraud.Answer.{
  FasTracker, FasEntry, extended, forget, store, update_offer, clear, finalize_on_bye, sweep,
  clear_if_answer_media,
}
use sip_exporter.Fraud.Answer.Pending.{
  Call, stores, updates, clears, media, byes, sweeps, step, sweep_from-IsMap,
}
use sip_exporter.Fraud.Answer.Reports.{
  count, next, reports_now, step-next, media_unknown, media_pending, timed,
}

module _ {E : Type 0} ⦃key : Key E⦄ where
  abbrev pub steps : FasTracker E → List (Call E) → FasTracker E
  steps t [] = t
  steps t (c ∷ cs) = steps (step t c).0 cs

  -- The reports of the call `id` along the way.
  abbrev pub reports_of : String → FasTracker E → List (Call E) → ℕ
  reports_of id t [] = 0
  reports_of id t (c ∷ cs) = count id (step t c).1 + reports_of id (step t c).0 cs

  -- How often the call `id` is put under watch.
  abbrev stored : String → Call E → ℕ
  stored id (stores now j e endpoints srtp) = ite (String-discrete j id) 1 0
  stored id c = 0

  abbrev pub stores_of : String → List (Call E) → ℕ
  stores_of id [] = 0
  stores_of id (c ∷ cs) = stored id c + stores_of id cs

  abbrev pub pending : String → FasTracker E → ℕ
  pending id t = if is_some (lookup id t.entries) then 1 else 0

  forget-IsMap : (t : FasTracker E) (j : String) → IsMap t.entries → IsMap (forget t j).entries
  forget-IsMap t j m = delete-IsMap j t.entries m

  media-IsMap :
      (t : FasTracker E) (j : String) (ep : E) (total : ℕ) (by : String)
      → IsMap t.entries
      → IsMap (clear_if_answer_media t j ep total by).entries
  media-IsMap t j ep total by m = elim (String-discrete j "") [
    | yes nameless ↦ rw (media_unknown t j ep total by (inl nameless)) m
    | no named ↦ elim (Option-cases (lookup j t.entries)) [
      | inl absent ↦ rw (media_unknown t j ep total by (inr absent)) m
      | inr (e, found) ↦
          rw (media_pending t j ep total by e (lookup j t.offer) named found refl)
            (ground (arith, forget-IsMap t j m))
    ]
  ]

  update-IsMap :
      (t : FasTracker E) (j : String) (endpoints : List E) (srtp : Bool)
      → IsMap t.entries
      → IsMap (update_offer t j endpoints srtp).entries
  unfolding update_offer
  update-IsMap t j endpoints srtp m = elim (Option-cases (lookup j t.entries)) [
    | inl absent ↦ ground arith
    | inr (e, found) ↦ ground (arith, insert-IsMap j (extended t.threshold srtp e) t.entries m)
  ]

  bye-IsMap :
      (t : FasTracker E) (now : ℕ) (j : String)
      → IsMap t.entries
      → IsMap (finalize_on_bye t now j).0.entries
  unfolding finalize_on_bye
  bye-IsMap t now j m = elim (Option-cases (lookup j t.entries)) [
    | inl absent ↦ ground arith
    | inr (e, found) ↦ ground (arith, forget-IsMap t j m)
  ]

  step-IsMap : (t : FasTracker E) (c : Call E) → IsMap t.entries → IsMap (step t c).0.entries
  unfolding store clear sweep
  step-IsMap t (stores now j e endpoints srtp) m =
      ground (arith, insert-IsMap j (timed t.threshold now e srtp) t.entries m)
  step-IsMap t (updates j endpoints srtp) m = update-IsMap t j endpoints srtp m
  step-IsMap t (clears j) m = ground (arith, forget-IsMap t j m)
  step-IsMap t (media j ep total by) m = media-IsMap t j ep total by m
  step-IsMap t (byes now j) m = bye-IsMap t now j m
  step-IsMap t (sweeps now) m = sweep_from-IsMap now t.entries t m

  next_account :
      (threshold : ℕ) (id : String) (p : Option FasEntry) (o : Option (List E)) (c : Call E)
      → reports_now id p c + (if is_some (next threshold id p o c) then 1 else 0)
        ≤ (if is_some p then 1 else 0) + stored id c
  next_account threshold id p o (stores now j e endpoints srtp) = ground arith
  next_account threshold id p o (updates j endpoints srtp) = ground arith
  next_account threshold id p o (clears j) = ground arith
  next_account threshold id p o (media j ep total by) = ground arith
  next_account threshold id p o (byes now j) = ground arith
  next_account threshold id p o (sweeps now) = ground arith

  step_account :
      (t : FasTracker E) (c : Call E) (id : String)
      → id ≢ ""
      → IsMap t.entries
      → count id (step t c).1 + pending id (step t c).0 ≤ pending id t + stored id c
  step_account t c id h m =
      let (entry, reports) = step-next t c id h m in
      rw (entry, reports) (next_account t.threshold id (lookup id t.entries) (lookup id t.offer) c)

  -- Each time a call is put under watch it is reported once at most, whatever calls of the tracker
  -- come in between and in whatever order; what is still pending has not been reported.
  pub reports_of-le-stores_of :
      (t : FasTracker E) (cs : List (Call E)) (id : String)
      → id ≢ ""
      → IsMap t.entries
      → reports_of id t cs + pending id (steps t cs) ≤ pending id t + stores_of id cs
  reports_of-le-stores_of t [] id h m = omega arith
  reports_of-le-stores_of t (c ∷ cs) id h m = omega (
    arith,
    step_account t c id h m,
    reports_of-le-stores_of (step t c).0 cs id h (step-IsMap t c m),
  )
