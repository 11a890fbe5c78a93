-- ===== src/Fraud/Answer/Pending.antt =====
-- The calls of the FAS tracker as steps, and what they do to the pending entry of one Call-ID.
use sip_exporter.Prelude.{
  ℕ, ◌≡◌, refl, Bool, true, false, List, [], ◌∷◌, ltb, arith, if◌then◌else◌, String,
  String-discrete, string_key, Key, ite, Option, none, some,
}
use sip_exporter.Prelude.Assoc.{lookup, IsMap, lookup-delete, delete-IsMap}
use sip_exporter.Fraud.Answer.{
  FasTracker, FasEntry, FasReport, forget, store, update_offer, clear, finalize_on_bye, sweep,
  sweep_from, clear_if_answer_media,
}

pub data Call (E : Type 0) : Type 0 where
  stores : ℕ → String → FasEntry → List E → Bool → Call E
  updates : String → List E → Bool → Call E
  clears : String → Call E
  media : String → E → ℕ → String → Call E
  byes : ℕ → String → Call E
  sweeps : ℕ → Call E

module _ {E : Type 0} ⦃key : Key E⦄ where
  -- The tracker after the call, and the reports that the call makes.
  abbrev pub step : FasTracker E → Call E → FasTracker E × List FasReport
  step t (stores now id e endpoints srtp) = (store t now id e endpoints srtp, [])
  step t (updates id endpoints srtp) = (update_offer t id endpoints srtp, [])
  step t (clears id) = (clear t id, [])
  step t (media id ep total by) = (clear_if_answer_media t id ep total by, [])
  step t (byes now id) = finalize_on_bye t now id
  step t (sweeps now) = sweep t now

-- An entry with this Call-ID is past its deadline.
abbrev due : ℕ → String → List (String × FasEntry) → Bool
due now id [] = false
due now id ((j, e) ∷ l) =
    ite (String-discrete j id) (if ltb e.deadline now then true else due now id l) (due now id l)

abbrev pub overdue : ℕ → Option FasEntry → Bool
overdue now none = false
overdue now (some e) = ltb e.deadline now

due_absent :
    (now : ℕ) (id : String) (l : List (String × FasEntry))
    → lookup id l ≡ none
    → due now id l ≡ false
unfolding lookup
due_absent now id [] h = refl
due_absent now id ((j, e) ∷ l) h = ground (arith, due_absent now id l)

due-overdue :
    (now : ℕ) (id : String) (l : List (String × FasEntry))
    → IsMap l
    → due now id l ≡ overdue now (lookup id l)
unfolding lookup
due-overdue now id [] m = refl
due-overdue now id ((j, e) ∷ l) m = ground (arith, due-overdue now id l m.1, due_absent now id l)

module _ {E : Type 0} where
  sweep_from_entries :
      (now : ℕ) (l : List (String × FasEntry)) (t : FasTracker E) (id : String)
      → lookup id (sweep_from now l t).0.entries
        ≡ (if due now id l then none else lookup id t.entries)
  unfolding sweep_from
  sweep_from_entries now [] t id = refl
  sweep_from_entries now ((j, e) ∷ l) t id = ground (
    arith,
    sweep_from_entries now l (forget t j) id,
    sweep_from_entries now l t id,
    lookup-delete j id t.entries,
  )

  sweep_from_offer :
      (now : ℕ) (l : List (String × FasEntry)) (t : FasTracker E) (id : String)
      → lookup id (sweep_from now l t).0.offer ≡ (if due now id l then none else lookup id t.offer)
  unfolding sweep_from
  sweep_from_offer now [] t id = refl
  sweep_from_offer now ((j, e) ∷ l) t id = ground (
    arith,
    sweep_from_offer now l (forget t j) id,
    sweep_from_offer now l t id,
    lookup-delete j id t.offer,
  )

  pub sweep_from-IsMap :
      (now : ℕ) (l : List (String × FasEntry)) (t : FasTracker E)
      → IsMap t.entries
      → IsMap (sweep_from now l t).0.entries
  unfolding sweep_from
  sweep_from-IsMap now [] t m = m
  sweep_from-IsMap now ((j, e) ∷ l) t m = ground (
    arith,
    sweep_from-IsMap now l (forget t j) (delete-IsMap j t.entries m),
    sweep_from-IsMap now l t m,
  )

  -- The sweep drops the entries past their deadline, with their offers, and no others.
  pub lookup-sweep :
      (t : FasTracker E) (now : ℕ) (id : String)
      → IsMap t.entries
      → (lookup id (sweep t now).0.entries
          ≡ (if overdue now (lookup id t.entries) then none else lookup id t.entries))
        × (lookup id (sweep t now).0.offer
            ≡ (if overdue now (lookup id t.entries) then none else lookup id t.offer))
  unfolding sweep
  lookup-sweep t now id m =
      rw (← due-overdue now id t.entries m)
        (sweep_from_entries now t.entries t id, sweep_from_offer now t.entries t id)
