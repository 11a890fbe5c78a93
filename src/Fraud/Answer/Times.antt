-- ===== src/Fraud/Answer/Times.antt =====
-- When a pending entry may be reported.
use sip_exporter.Prelude.{
  ℕ, ◌+◌, ◌≤◌, ◌≡◌, ◌≢◌, refl, List, [], ◌∷◌, arith, String, String-discrete, string_key, Key,
  Option, none, some, Option-cases, inl, inr, sym, ◌∙◌,
}
use sip_exporter.Prelude.Assoc.{lookup, IsMap}
use sip_exporter.Fraud.Answer.{
  FasTracker, FasEntry, fas_srtp_grace, fas_bye_floor, forget, store, update_offer, clear,
  finalize_on_bye, sweep, sweep_from, clear_if_answer_media,
}
use sip_exporter.Fraud.Answer.Pending.{Call, stores, updates, clears, media, byes, sweeps, step}
use sip_exporter.Fraud.Answer.Reports.{next, step-next, media_unknown, media_pending}

-- The floor of the BYE path lies three seconds after the answer, with SRTP or without; the deadline
-- of the sweep lies the threshold after the answer, or that and the grace of SRTP.
pub record IsTimely (threshold : ℕ) (e : FasEntry) : Type 0 where
  pub floor_exact : e.bye_floor ≡ e.created_at + fas_bye_floor
  pub deadline_least : e.created_at + threshold ≤ e.deadline
  pub deadline_most : e.deadline ≤ e.created_at + threshold + fas_srtp_grace

module _ {E : Type 0} ⦃key : Key E⦄ where
  next_first :
      (threshold : ℕ) (id : String) (o : Option (List E)) (c : Call E) (new : FasEntry)
      → next threshold id none o c ≡ some new
      → IsTimely threshold new
  next_first threshold id o (stores now j e endpoints srtp) new q = ground arith
  next_first threshold id o (updates j endpoints srtp) new q = ground arith
  next_first threshold id o (clears j) new q = ground arith
  next_first threshold id o (media j ep total by) new q = ground arith
  next_first threshold id o (byes now j) new q = ground arith
  next_first threshold id o (sweeps now) new q = ground arith

  next_again :
      (threshold : ℕ) (id : String) (e : FasEntry) (o : Option (List E)) (c : Call E)
      (new : FasEntry)
      → IsTimely threshold e
      → next threshold id (some e) o c ≡ some new
      → IsTimely threshold new
  next_again threshold id e o (stores now j f endpoints srtp) new v q = ground arith
  next_again threshold id e o (updates j endpoints srtp) new v q = ground arith
  next_again threshold id e o (clears j) new v q = ground arith
  next_again threshold id e o (media j ep total by) new v q = ground arith
  next_again threshold id e o (byes now j) new v q = ground arith
  next_again threshold id e o (sweeps now) new v q = ground arith

  sweep_from_threshold :
      (now : ℕ) (l : List (String × FasEntry)) (t : FasTracker E)
      → (sweep_from now l t).0.threshold ≡ t.threshold
  unfolding sweep_from
  sweep_from_threshold now [] t = refl
  sweep_from_threshold now ((j, e) ∷ l) t =
      ground (arith, sweep_from_threshold now l (forget t j), sweep_from_threshold now l t)

  media_threshold :
      (t : FasTracker E) (j : String) (ep : E) (total : ℕ) (by : String)
      → (clear_if_answer_media t j ep total by).threshold ≡ t.threshold
  media_threshold t j ep total by = elim (String-discrete j "") [
    | yes nameless ↦ rw (media_unknown t j ep total by (inl nameless))
    | no named ↦ elim (Option-cases (lookup j t.entries)) [
      | inl absent ↦ rw (media_unknown t j ep total by (inr absent))
      | inr (e, found) ↦
          rw (media_pending t j ep total by e (lookup j t.offer) named found refl) (ground arith)
    ]
  ]

  step_threshold : (t : FasTracker E) (c : Call E) → (step t c).0.threshold ≡ t.threshold
  unfolding store update_offer clear finalize_on_bye sweep
  step_threshold t (stores now j e endpoints srtp) = ground arith
  step_threshold t (updates j endpoints srtp) = ground arith
  step_threshold t (clears j) = ground arith
  step_threshold t (media j ep total by) = media_threshold t j ep total by
  step_threshold t (byes now j) = ground arith
  step_threshold t (sweeps now) = sweep_from_threshold now t.entries t

  -- No call of the tracker moves a floor or a deadline out of its bounds: neither a repeated answer
  -- nor a fake fingerprint delays the BYE path.
  pub step-IsTimely :
      (t : FasTracker E) (c : Call E) (id : String) (e : FasEntry)
      → id ≢ ""
      → IsMap t.entries
      → ((old : FasEntry) → lookup id t.entries ≡ some old → IsTimely t.threshold old)
      → lookup id (step t c).0.entries ≡ some e
      → IsTimely (step t c).0.threshold e
  step-IsTimely t c id e named m v found =
      rw (step_threshold t c) (elim (Option-cases (lookup id t.entries)) [
        | inl absent ↦ next_first t.threshold id (lookup id t.offer) c e (rw absent at moved)
        | inr (old, was) ↦
            next_again t.threshold id old (lookup id t.offer) c e (v old was) (rw was at moved)
      ])
    where
      moved : next t.threshold id (lookup id t.entries) (lookup id t.offer) c ≡ some e
      moved = sym (step-next t c id named m).0 ∙ found
