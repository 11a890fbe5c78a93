-- ===== src/Fraud/Answer.antt =====
-- `fasTracker` of internal/exporter/fraud.go: False Answer Supervision. A media endpoint is a value
-- of any type with a decided equality, as `fasEndpoint` is in Go.
pub mod Pending
pub mod Reports
pub mod Totals
pub mod Times
use sip_exporter.Prelude.{
  ℕ, ◌+◌, Bool, true, false, not, ◌||◌, ◌&&◌, String, List, [], ◌∷◌, ◌++◌, Option, none, some, ite,
  ltb, leb, if◌then◌else◌, is_some, length, string_key, String-discrete, Key,
}
use sip_exporter.Prelude.Assoc.{lookup, insert, delete, retain}

-- `fasSRTPGrace` and `fasByeFloor`, in nanoseconds.
abbrev pub fas_srtp_grace : ℕ
fas_srtp_grace = 15_000_000_000

abbrev pub fas_bye_floor : ℕ
fas_bye_floor = 3_000_000_000

abbrev pub fas_media_packets_threshold : ℕ
fas_media_packets_threshold = 2

pub record FasEntry : Type 0 where
  pub created_at : ℕ
  pub deadline : ℕ
  pub bye_floor : ℕ
  pub carrier : String
  pub ua_type : String
  pub source_country : String
  pub direction : String

pub record FasTracker (E : Type 0) : Type 0 where
  pub threshold : ℕ
  pub entries : List (String × FasEntry)
  pub offer : List (String × List E)

-- The call of `FasCall` with the labels of the entry, for a Call-ID.
pub record FasReport : Type 0 where
  pub call_id : String
  pub entry : FasEntry

-- The deadline that an answer with SRTP gives; the timer does not start anew.
abbrev pub extended : ℕ → Bool → FasEntry → FasEntry
extended threshold srtp e =
    let grace = e.created_at + (threshold + fas_srtp_grace) in
    if srtp && ltb e.deadline grace then record e { deadline = grace } else e

module _ {E : Type 0} where
  unfoldable pub new_fas_tracker : ℕ → Option (FasTracker E)
  new_fas_tracker threshold =
      if leb threshold 0
      then none
      else some (record { threshold = threshold; entries = []; offer = [] })

  abbrev pub with_offer : String → List E → FasTracker E → FasTracker E
  with_offer call_id endpoints t =
      if ltb 0 (length endpoints) then record t { offer = insert call_id endpoints t.offer } else t

  -- `store`: the times of `e` are set here.
  unfoldable pub store : FasTracker E → ℕ → String → FasEntry → List E → Bool → FasTracker E
  store t now call_id e endpoints srtp =
      let timed = record e {
        created_at = now;
        deadline = if srtp then now + t.threshold + fas_srtp_grace else now + t.threshold;
        bye_floor = now + fas_bye_floor;
      } in
      ite (String-discrete call_id "") t
        (with_offer call_id endpoints (record t { entries = insert call_id timed t.entries }))

  unfoldable pub update_offer : FasTracker E → String → List E → Bool → FasTracker E
  update_offer t call_id endpoints srtp =
      ite (String-discrete call_id "") t (elim (lookup call_id t.entries) [
        | none ↦ t
        | some e ↦
            let u = with_offer call_id endpoints t in
            record u { entries = insert call_id (extended t.threshold srtp e) u.entries }
      ])

  -- `delete(t.entries, callID); delete(t.offer, callID)`
  abbrev pub forget : FasTracker E → String → FasTracker E
  forget t call_id = record t { entries = delete call_id t.entries; offer = delete call_id t.offer }

  unfoldable pub clear : FasTracker E → String → FasTracker E
  clear t call_id = ite (String-discrete call_id "") t (forget t call_id)

  unfoldable pub size : FasTracker E → ℕ
  size t = length t.entries

  -- `finalizeOnBye`: the report that it makes, if any.
  unfoldable pub finalize_on_bye : FasTracker E → ℕ → String → FasTracker E × List FasReport
  finalize_on_bye t now call_id =
      ite (String-discrete call_id "") (t, [])
        (elim (lookup call_id t.entries) [
          | none ↦ (t, [])
          | some e ↦ (
            forget t call_id,
            if ltb e.bye_floor now then record { call_id = call_id; entry = e } ∷ [] else [],
          )
        ])

  -- The loop of `sweep`, over the entries that are left to visit.
  unfoldable pub sweep_from :
      ℕ → List (String × FasEntry) → FasTracker E → FasTracker E × List FasReport
  sweep_from now [] t = (t, [])
  sweep_from now ((call_id, e) ∷ rest) t =
      if ltb e.deadline now
      then (let (u, fired) = sweep_from now rest (forget t call_id) in
          (u, record { call_id = call_id; entry = e } ∷ fired))
      else sweep_from now rest t

  unfoldable pub sweep : FasTracker E → ℕ → FasTracker E × List FasReport
  unfolding sweep_from
  sweep t now = sweep_from now t.entries t

module _ {E : Type 0} ⦃key : Key E⦄ where
  abbrev pub is_member : E → List E → Bool
  is_member ep [] = false
  is_member ep (x ∷ xs) = ite (key.same x ep) true (is_member ep xs)

  -- `clearIfAnswerMedia`: an empty or missing offer set clears on any media.
  unfoldable pub clear_if_answer_media : FasTracker E → String → E → ℕ → String → FasTracker E
  clear_if_answer_media t call_id ep packets_total matched_by = ite (String-discrete call_id "") t (
      if ltb packets_total fas_media_packets_threshold then t else elim (lookup call_id t.entries) [
        | none ↦ t
        | some e ↦ elim (lookup call_id t.offer) [
          | none ↦ forget t call_id
          | some [] ↦ forget t call_id
          | some (o ∷ os) ↦
              if is_member ep (o ∷ os)
              then ite (String-discrete matched_by "src") t (forget t call_id)
              else t
        ]
      ])
