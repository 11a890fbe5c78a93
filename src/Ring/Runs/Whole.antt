-- ===== src/Ring/Runs/Whole.antt =====
-- `enqueueBlock` against a grouping of all frames of the block into runs.
use sip_exporter.Prelude.{
  ℕ, zero, suc, ◌+◌, ◌≤◌, ◌<◌, ◌≡◌, refl, ap, ◌∙◌, Bool, true, false, List, [], ◌∷◌, ◌++◌, Option,
  none, some, ok, err, ◌==◌, if◌then◌else◌, length, length-append, drop, arith, Bool-cases, inl,
  inr,
}
use sip_exporter.Ring.{Uapi, RingError, Block, Frame, FrameIterator, frames, next}
use sip_exporter.Ring.Frames.{IsUapi, Fits}
use sip_exporter.Ring.Runs.{
  Pending, Enqueued, same_class, finish, add, open_run, enqueue_loop, enqueue_block,
}
use sip_exporter.Ring.Runs.Walks.{Walks, fails, ends, reads, walks}
use sip_exporter.Ring.Runs.Grouping.{
  Run, continue, runs, joined, Classed, Alternate, joined-runs, runs-Classed, runs-Alternate,
}

module _ {A : Type 0} where
  drop-append_one :
      (n : ℕ) (xs : List A) (a : A)
      → n ≤ length xs
      → drop n (xs ++ (a ∷ [])) ≡ drop n xs ++ (a ∷ [])
  drop-append_one zero xs a h = refl
  drop-append_one (suc n) [] a h = absurd (omega arith)
  drop-append_one (suc n) (x ∷ xs) a h = drop-append_one n xs a (omega arith)

  drop-length : (xs : List A) (a : A) → drop (length xs) (xs ++ (a ∷ [])) ≡ a ∷ []
  drop-length [] a = refl
  drop-length (x ∷ xs) a = drop-length xs a

module _ {Q : Type 0} (u : Uapi) (is_sip : Frame → Bool)
    (enqueue_run : Q → List Frame → Bool → Q × Bool) where
  -- The runs are offered to the queue in their order, until it has stopped.
  abbrev pub feed : Q → List Run → Q × Bool
  feed q [] = (q, true)
  feed q ((sip, run) ∷ rs) =
      let (after, running) = enqueue_run q run sip in
      if running then feed after rs else (after, false)

  -- A stop hides the error.
  abbrev pub enqueued : Q × Bool → Option RingError → Enqueued Q
  enqueued (q, running) error = record {
    queue = q;
    running = running;
    error = if running then error else none;
  }

  finish-feed :
      (q : Q) (p : Pending) (error : Option RingError)
      → p.run_start < length p.seen
      → finish u is_sip enqueue_run q p error
        ≡ enqueued (feed q ((p.run_sip, drop p.run_start p.seen) ∷ [])) error
  finish-feed q p error h = ground arith

  -- The loop, from a frame of which the run is known.
  abbrev expected : Pending → Q → List Frame → Option RingError → Option (Enqueued Q)
  expected p q fs error =
      some (enqueued (feed q (continue is_sip p.run_sip (drop p.run_start p.seen) fs)) error)

  expected-add :
      (p : Pending) (f : Frame) (q : Q) (fs : List Frame) (error : Option RingError)
      → p.run_start < length p.seen
      → same_class (is_sip f) p.run_sip ≡ true
      → expected (add u is_sip enqueue_run p f) q fs error ≡ expected p q (f ∷ fs) error
  expected-add p f q fs error h e = rw (e, drop-append_one p.run_start p.seen f (omega arith)) refl

  expected-open :
      (p : Pending) (f : Frame) (q : Q) (fs : List Frame) (error : Option RingError)
      → same_class (is_sip f) p.run_sip ≡ false
      → (enqueue_run q (drop p.run_start p.seen) p.run_sip).1 ≡ true
      → expected
          (open_run u is_sip enqueue_run p f)
          (enqueue_run q (drop p.run_start p.seen) p.run_sip).0
          fs
          error
        ≡ expected p q (f ∷ fs) error
  expected-open p f q fs error e running = rw (e, running, drop-length p.seen f) refl

  some_seen : (p : Pending) → p.run_start < length p.seen → (length p.seen == 0) ≡ false
  some_seen p h = ground arith

  loop-add :
      (fuel : ℕ) (i later : FrameIterator) (f : Frame) (p : Pending) (q : Q)
      → next u i ≡ some (later, ok (some f))
      → p.run_start < length p.seen
      → same_class (is_sip f) p.run_sip ≡ true
      → enqueue_loop u is_sip enqueue_run (suc fuel) i p q
        ≡ enqueue_loop u is_sip enqueue_run fuel later (add u is_sip enqueue_run p f) q
  unfolding enqueue_loop
  loop-add fuel i later f p q found h same = rw (found, some_seen p h, same) refl

  loop-open_run :
      (fuel : ℕ) (i later : FrameIterator) (f : Frame) (p : Pending) (q : Q)
      → next u i ≡ some (later, ok (some f))
      → p.run_start < length p.seen
      → same_class (is_sip f) p.run_sip ≡ false
      → (enqueue_run q (drop p.run_start p.seen) p.run_sip).1 ≡ true
      → enqueue_loop u is_sip enqueue_run (suc fuel) i p q
        ≡ enqueue_loop u is_sip enqueue_run fuel later
            (open_run u is_sip enqueue_run p f)
            (enqueue_run q (drop p.run_start p.seen) p.run_sip).0
  unfolding enqueue_loop
  loop-open_run fuel i later f p q found h other running =
      rw (found, some_seen p h, other, running) refl

  loop_stops :
      (fuel : ℕ) (i later : FrameIterator) (f : Frame) (p : Pending) (q : Q)
      → next u i ≡ some (later, ok (some f))
      → p.run_start < length p.seen
      → same_class (is_sip f) p.run_sip ≡ false
      → (enqueue_run q (drop p.run_start p.seen) p.run_sip).1 ≡ false
      → (fs : List Frame) (error : Option RingError)
      → enqueue_loop u is_sip enqueue_run (suc fuel) i p q ≡ expected p q (f ∷ fs) error
  unfolding enqueue_loop
  loop_stops fuel i later f p q found h other stopped fs error =
      rw (found, some_seen p h, other, stopped) refl

  abbrev Loops : ℕ → Type 0
  Loops fuel =
      (i : FrameIterator) (p : Pending) (q : Q) (fs : List Frame) (error : Option RingError)
      → p.run_start < length p.seen
      → length fs < fuel
      → Walks u i fs error
      → enqueue_loop u is_sip enqueue_run fuel i p q ≡ expected p q fs error

  -- A frame that was read joins the run or ends it.
  loop_frame :
      (fuel : ℕ) (i later : FrameIterator) (f : Frame) (p : Pending) (q : Q) (fs : List Frame)
      (error : Option RingError)
      → Loops fuel
      → next u i ≡ some (later, ok (some f))
      → p.run_start < length p.seen
      → length fs < fuel
      → Walks u later fs error
      → enqueue_loop u is_sip enqueue_run (suc fuel) i p q ≡ expected p q (f ∷ fs) error
  loop_frame fuel i later f p q fs error ih found h room w =
      let longer : length (p.seen ++ (f ∷ [])) ≡ length p.seen + 1 =
        length-append p.seen (f ∷ []) in
      elim (Bool-cases (same_class (is_sip f) p.run_sip)) [
        | inl same ↦
            loop-add fuel i later f p q found h same
            ∙ (ih later (add u is_sip enqueue_run p f) q fs error (omega (arith, longer)) room w
                ∙ expected-add p f q fs error h same)
        | inr other ↦ elim (Bool-cases (enqueue_run q (drop p.run_start p.seen) p.run_sip).1) [
          | inl running ↦
              loop-open_run fuel i later f p q found h other running
              ∙ (ih later (open_run u is_sip enqueue_run p f)
                    (enqueue_run q (drop p.run_start p.seen) p.run_sip).0 fs error
                    (omega (arith, longer)) room w
                  ∙ expected-open p f q fs error other running)
          | inr stopped ↦ loop_stops fuel i later f p q found h other stopped fs error
        ]
      ]

  loop_fails :
      (fuel : ℕ) (i later : FrameIterator) (p : Pending) (q : Q) (e : RingError)
      → next u i ≡ some (later, err e)
      → p.run_start < length p.seen
      → enqueue_loop u is_sip enqueue_run (suc fuel) i p q ≡ expected p q [] (some e)
  unfolding enqueue_loop
  loop_fails fuel i later p q e found h = rw found (ap some (finish-feed q p (some e) h))

  loop_ends :
      (fuel : ℕ) (i later : FrameIterator) (p : Pending) (q : Q)
      → next u i ≡ some (later, ok none)
      → p.run_start < length p.seen
      → enqueue_loop u is_sip enqueue_run (suc fuel) i p q ≡ expected p q [] none
  unfolding enqueue_loop
  loop_ends fuel i later p q found h = rw found (ap some (finish-feed q p none h))

  loop-expected : (fuel : ℕ) → Loops fuel
  loop-expected zero i p q fs error h room w = absurd (omega arith)
  loop-expected (suc fuel) i p q [] (some e) h room (fails _ later _ found) =
      loop_fails fuel i later p q e found h
  loop-expected (suc fuel) i p q [] none h room (ends _ later found) =
      loop_ends fuel i later p q found h
  loop-expected (suc fuel) i p q (f ∷ fs) error h room (reads _ later _ _ _ found rest) =
      loop_frame fuel i later f p q fs error (loop-expected fuel) found h (omega arith) rest

  -- The first round has no run to join.
  first_round :
      (b : Block) (q : Q) (fs : List Frame) (error : Option RingError)
      → length fs ≤ b.packet_count
      → Walks u (frames b) fs error
      → enqueue_block u is_sip enqueue_run b q ≡ some (enqueued (feed q (runs is_sip fs)) error)
  unfolding enqueue_block enqueue_loop
  first_round b q [] (some e) room (fails _ later _ found) = rw found refl
  first_round b q [] none room (ends _ later found) = rw found refl
  first_round b q (f ∷ fs) error room (reads _ later _ _ _ found rest) = rw found (
      loop-expected b.packet_count later
        (record { seen = f ∷ []; run_start = 0; run_sip = is_sip f }) q fs error (omega arith)
        (omega arith) rest)

-- The frames of the block are read to the end or to the first that is malformed, cut into runs of
-- one class that alternate and that joined give all frames back, and the runs are offered to the
-- queue in order until it has stopped; an error is returned unless it has.
pub enqueue_block_offers :
    {Q : Type 0} (u : Uapi) (is_sip : Frame → Bool) (enqueue_run : Q → List Frame → Bool → Q × Bool)
    (b : Block) (q : Q)
    → IsUapi u
    → Fits b
    → (fs : List Frame) × (error : Option RingError) × (rs : List Run) × Walks u (frames b) fs error
      × (joined rs ≡ fs)
      × Classed is_sip rs
      × Alternate is_sip rs
      × (enqueue_block u is_sip enqueue_run b q
          ≡ some (enqueued u is_sip enqueue_run (feed u is_sip enqueue_run q rs) error))
enqueue_block_offers u is_sip enqueue_run b q w v =
    let (fs, error, walk, few) = walks b.packet_count u (frames b) w v (omega arith) in
    (
      fs,
      error,
      runs is_sip fs,
      walk,
      joined-runs is_sip fs,
      runs-Classed is_sip fs,
      runs-Alternate is_sip fs,
      first_round u is_sip enqueue_run b q fs error few walk,
    )
