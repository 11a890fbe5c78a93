-- ===== src/Fraud/Answer/Reports.antt =====
-- One call under FAS watch as a small state machine, and how often it can be reported.
use sip_exporter.Prelude.{
  ℕ, ◌+◌, ◌≡◌, ◌≢◌, refl, Bool, true, false, List, [], ◌∷◌, ltb, arith, if◌then◌else◌, String,
  String-discrete, string_key, Key, ite, Option, none, some, Option-cases, inl, inr, ◌⊎◌,
}
use sip_exporter.Prelude.Assoc.{lookup, IsMap, lookup-insert, lookup-delete}
use sip_exporter.Fraud.Answer.{
  FasTracker, FasEntry, FasReport, fas_srtp_grace, fas_bye_floor, extended, forget, store,
  update_offer, clear, finalize_on_bye, sweep, sweep_from, clear_if_answer_media, is_member,
}
use sip_exporter.Fraud.Answer.Pending.{
  Call, stores, updates, clears, media, byes, sweeps, step, overdue, lookup-sweep,
}

-- How many reports name the call.
abbrev pub count : String → List FasReport → ℕ
count id [] = 0
count id (r ∷ rs) = ite (String-discrete r.call_id id) 1 0 + count id rs

abbrev pub timed : ℕ → ℕ → FasEntry → Bool → FasEntry
timed threshold now e srtp = record e {
  created_at = now;
  deadline = if srtp then now + threshold + fas_srtp_grace else now + threshold;
  bye_floor = now + fas_bye_floor;
}

abbrev pub lasted : ℕ → Option FasEntry → Bool
lasted now none = false
lasted now (some e) = ltb e.bye_floor now

abbrev pub push_back : ℕ → Bool → Option FasEntry → Option FasEntry
push_back threshold srtp none = none
push_back threshold srtp (some e) = some (extended threshold srtp e)

module _ {E : Type 0} ⦃key : Key E⦄ where
  -- Media that is no proof of an answer: it arrived at no endpoint of a known offer, or was matched
  -- by its sender.
  abbrev pub answers : Option (List E) → E → String → Bool
  answers none ep by = true
  answers (some []) ep by = true
  answers (some (o ∷ os)) ep by =
      if is_member ep (o ∷ os) then ite (String-discrete by "src") false true else false

  -- The pending entry of the call `id` after a call of the tracker.
  abbrev pub next : ℕ → String → Option FasEntry → Option (List E) → Call E → Option FasEntry
  next threshold id p o (stores now j e endpoints srtp) =
      ite (String-discrete j id) (some (timed threshold now e srtp)) p
  next threshold id p o (updates j endpoints srtp) =
      ite (String-discrete j id) (push_back threshold srtp p) p
  next threshold id p o (clears j) = ite (String-discrete j id) none p
  next threshold id p o (media j ep total by) =
      ite (String-discrete j id) (if ltb total 2 then p else if answers o ep by then none else p) p
  next threshold id p o (byes now j) = ite (String-discrete j id) none p
  next threshold id p o (sweeps now) = if overdue now p then none else p

  -- The reports of the call `id` that a call of the tracker makes.
  abbrev pub reports_now : String → Option FasEntry → Call E → ℕ
  reports_now id p (byes now j) = ite (String-discrete j id) (if lasted now p then 1 else 0) 0
  reports_now id p (sweeps now) = if overdue now p then 1 else 0
  reports_now id p c = 0

count_absent :
    {E : Type 0} (now : ℕ) (id : String) (l : List (String × FasEntry)) (t : FasTracker E)
    → lookup id l ≡ none
    → count id (sweep_from now l t).1 ≡ 0
unfolding sweep_from lookup
count_absent now id [] t h = refl
count_absent now id ((j, e) ∷ l) t h =
    ground (arith, count_absent now id l (forget t j), count_absent now id l t)

count-sweep_from :
    {E : Type 0} (now : ℕ) (id : String) (l : List (String × FasEntry)) (t : FasTracker E)
    → IsMap l
    → count id (sweep_from now l t).1 ≡ (if overdue now (lookup id l) then 1 else 0)
unfolding sweep_from lookup
count-sweep_from now id [] t m = refl
count-sweep_from now id ((j, e) ∷ l) t m = ground (
  arith,
  count-sweep_from now id l (forget t j) m.1,
  count-sweep_from now id l t m.1,
  count_absent now id l (forget t j),
  count_absent now id l t,
)

module _ {E : Type 0} ⦃key : Key E⦄ where
  pub media_unknown :
      (t : FasTracker E) (j : String) (ep : E) (total : ℕ) (by : String)
      → (j ≡ "") ⊎ (lookup j t.entries ≡ none)
      → clear_if_answer_media t j ep total by ≡ t
  unfolding clear_if_answer_media
  media_unknown t j ep total by (inl e) = ground arith
  media_unknown t j ep total by (inr e) = ground arith

  pub media_pending :
      (t : FasTracker E) (j : String) (ep : E) (total : ℕ) (by : String) (e : FasEntry)
      (o : Option (List E))
      → j ≢ ""
      → lookup j t.entries ≡ some e
      → lookup j t.offer ≡ o
      → clear_if_answer_media t j ep total by
        ≡ (if ltb total 2 then t else if answers o ep by then forget t j else t)
  unfolding clear_if_answer_media
  media_pending t j ep total by e none h p q = ground arith
  media_pending t j ep total by e (some []) h p q = ground arith
  media_pending t j ep total by e (some (x ∷ xs)) h p q = ground arith

  media_next :
      (t : FasTracker E) (j : String) (ep : E) (total : ℕ) (by : String) (id : String)
      → id ≢ ""
      → lookup id (clear_if_answer_media t j ep total by).entries
        ≡ next t.threshold id (lookup id t.entries) (lookup id t.offer) (media j ep total by)
  media_next t j ep total by id h = elim (String-discrete j "") [
    | yes nameless ↦ rw (media_unknown t j ep total by (inl nameless)) (ground arith)
    | no named ↦ elim (Option-cases (lookup j t.entries)) [
      | inl absent ↦ rw (media_unknown t j ep total by (inr absent)) (ground arith)
      | inr (e, found) ↦
          rw (media_pending t j ep total by e (lookup j t.offer) named found refl)
            (ground (arith, lookup-delete j id t.entries))
    ]
  ]

  -- A call of the tracker moves the pending entry of every named call as the state machine says,
  -- and makes the reports that it says.
  pub step-next :
      (t : FasTracker E) (c : Call E) (id : String)
      → id ≢ ""
      → IsMap t.entries
      → (lookup id (step t c).0.entries
          ≡ next t.threshold id (lookup id t.entries) (lookup id t.offer) c)
        × (count id (step t c).1 ≡ reports_now id (lookup id t.entries) c)
  unfolding store update_offer clear clear_if_answer_media finalize_on_bye
  step-next t (stores now j e endpoints srtp) id h m =
      (ground (arith, lookup-insert j id (timed t.threshold now e srtp) t.entries), refl)
  step-next t (updates j endpoints srtp) id h m = (
    elim (Option-cases (lookup j t.entries)) [
      | inl absent ↦ ground arith
      | inr (e, found) ↦ ground (arith, lookup-insert j id (extended t.threshold srtp e) t.entries)
    ],
    refl,
  )
  step-next t (clears j) id h m = (ground (arith, lookup-delete j id t.entries), refl)
  step-next t (media j ep total by) id h m = (media_next t j ep total by id h, refl)
  step-next t (byes now j) id h m = elim (Option-cases (lookup j t.entries)) [
    | inl absent ↦ (ground arith, ground arith)
    | inr (e, found) ↦ (ground (arith, lookup-delete j id t.entries), ground arith)
  ]
  step-next t (sweeps now) id h m =
      ((lookup-sweep t now id m).0, unfold sweep in count-sweep_from now id t.entries t m)
