-- ===== src/Ring/Runs/Grouping.antt =====
-- Frames grouped into runs of one class.
use mathlib.Core.List.{append_assoc}
use sip_exporter.Prelude.{
  ◌<◌, ◌≡◌, refl, ap, subst, sym, ◌∙◌, Bool, true, false, List, [], ◌∷◌, ◌++◌, if◌then◌else◌,
  length, length-append, All, arith, Bool-cases, inl, inr,
}
use sip_exporter.Ring.{Frame}
use sip_exporter.Ring.Runs.{same_class}

-- A run: its class, and its frames.
abbrev pub Run : Type 0
Run = Bool × List Frame

module _ (is_sip : Frame → Bool) where
  -- The runs of a run that is open and the frames behind it.
  abbrev pub continue : Bool → List Frame → List Frame → List Run
  continue sip run [] = (sip, run) ∷ []
  continue sip run (f ∷ fs) =
      if same_class (is_sip f) sip
      then continue sip (run ++ (f ∷ [])) fs
      else (sip, run) ∷ continue (is_sip f) (f ∷ []) fs

  abbrev pub runs : List Frame → List Run
  runs [] = []
  runs (f ∷ fs) = continue (is_sip f) (f ∷ []) fs

-- Runs joined again, and runs of one class each.
abbrev pub joined : List Run → List Frame
joined [] = []
joined ((sip, run) ∷ rs) = run ++ joined rs

same_class-true : (a b : Bool) → same_class a b ≡ true → a ≡ b
same_class-true true b h = sym h
same_class-true false b h = ground arith

module _ (is_sip : Frame → Bool) where
  abbrev pub Classed : List Run → Type 0
  Classed = All (λ (r : Run). (0 < length r.1) × All (λ f. is_sip f ≡ r.0) r.1)

  -- Neighbours differ in class.
  abbrev pub Alternate : List Run → Type 0
  Alternate [] = Unit
  Alternate (r ∷ []) = Unit
  Alternate (r ∷ s ∷ rs) = (same_class s.0 r.0 ≡ false) × Alternate (s ∷ rs)

  joined-continue :
      (sip : Bool) (run fs : List Frame) → joined (continue is_sip sip run fs) ≡ run ++ fs
  joined-continue sip run [] = refl
  joined-continue sip run (f ∷ fs) = elim (Bool-cases (same_class (is_sip f) sip)) [
    | inl same ↦ rw same (joined-continue sip (run ++ (f ∷ [])) fs ∙ append_assoc run (f ∷ []) fs)
    | inr other ↦ rw other (ap (◌++◌ run) (joined-continue (is_sip f) (f ∷ []) fs))
  ]

  All-append_one :
      (P : Frame → Type 0) (run : List Frame) (f : Frame)
      → All P run
      → P f
      → All P (run ++ (f ∷ []))
  All-append_one P [] f h p = (p, tt)
  All-append_one P (g ∷ run) f h p = (h.0, All-append_one P run f h.1 p)

  continue-Classed :
      (sip : Bool) (run fs : List Frame)
      → 0 < length run
      → All (λ f. is_sip f ≡ sip) run
      → Classed (continue is_sip sip run fs)
  continue-Classed sip run [] pos h = ((pos, h), tt)
  continue-Classed sip run (f ∷ fs) pos h = elim (Bool-cases (same_class (is_sip f) sip)) [
    | inl same ↦ rw same (
        continue-Classed sip (run ++ (f ∷ [])) fs (omega (arith, length-append run (f ∷ [])))
          (All-append_one (λ g. is_sip g ≡ sip) run f h (same_class-true (is_sip f) sip same)))
    | inr other ↦
        rw other ((pos, h), continue-Classed (is_sip f) (f ∷ []) fs (omega arith) (refl, tt))
  ]

  -- The run that is open leads.
  continue_leads :
      (sip : Bool) (run fs : List Frame)
      → (run' : List Frame) × (rs : List Run) × (continue is_sip sip run fs ≡ (sip, run') ∷ rs)
  continue_leads sip run [] = (run, [], refl)
  continue_leads sip run (f ∷ fs) = elim (Bool-cases (same_class (is_sip f) sip)) [
    | inl same ↦ rw same (continue_leads sip (run ++ (f ∷ [])) fs)
    | inr other ↦ (run, continue is_sip (is_sip f) (f ∷ []) fs, rw other refl)
  ]

  continue-Alternate : (sip : Bool) (run fs : List Frame) → Alternate (continue is_sip sip run fs)
  continue-Alternate sip run [] = tt
  continue-Alternate sip run (f ∷ fs) = elim (Bool-cases (same_class (is_sip f) sip)) [
    | inl same ↦ rw same (continue-Alternate sip (run ++ (f ∷ [])) fs)
    | inr other ↦
        let (run', rs, leads) = continue_leads (is_sip f) (f ∷ []) fs in
        rw other (
          subst (λ rs. Alternate ((sip, run) ∷ rs)) (sym leads)
            (other, subst Alternate leads (continue-Alternate (is_sip f) (f ∷ []) fs)))
  ]

  pub joined-runs : (fs : List Frame) → joined (runs is_sip fs) ≡ fs
  joined-runs [] = refl
  joined-runs (f ∷ fs) = joined-continue (is_sip f) (f ∷ []) fs

  pub runs-Classed : (fs : List Frame) → Classed (runs is_sip fs)
  runs-Classed [] = tt
  runs-Classed (f ∷ fs) = continue-Classed (is_sip f) (f ∷ []) fs (omega arith) (refl, tt)

  pub runs-Alternate : (fs : List Frame) → Alternate (runs is_sip fs)
  runs-Alternate [] = tt
  runs-Alternate (f ∷ fs) = continue-Alternate (is_sip f) (f ∷ []) fs
