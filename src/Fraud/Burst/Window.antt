-- ===== src/Fraud/Burst/Window.antt =====
-- The bounded list of one source against its whole history.
use sip_exporter.Prelude.{
  ℕ, zero, suc, ◌+◌, ◌-◌, ◌≤◌, min, ◌≡◌, refl, List, [], ◌∷◌, ◌++◌, ltb, leb, arith, tests,
  if◌then◌else◌, length, length-append, length-drop, drop, Bool-cases, inl, inr,
}
use sip_exporter.Fraud.Burst.{drop_old, trim, recorded}

-- How many of the times lie in the window that ends at `now`.
abbrev pub recent_count : ℕ → ℕ → List ℕ → ℕ
recent_count window now [] = 0
recent_count window now (ts ∷ rest) =
    (if ltb (ts + window) now then 0 else 1) + recent_count window now rest

-- Times that do not fall, from `lo` on and up to `hi`.
abbrev pub Ascending : ℕ → ℕ → List ℕ → Type 0
Ascending lo hi [] = lo ≤ hi
Ascending lo hi (x ∷ xs) = (lo ≤ x) × Ascending x hi xs

module _ (window : ℕ) where
  recent_count-le : (now : ℕ) (xs : List ℕ) → recent_count window now xs ≤ length xs
  recent_count-le now [] = omega arith
  recent_count-le now (x ∷ xs) = ground (arith, recent_count-le now xs)

  pub recent_count-append :
      (now : ℕ) (xs ys : List ℕ)
      → recent_count window now (xs ++ ys) ≡ recent_count window now xs + recent_count window now ys
  recent_count-append now [] ys = omega arith
  recent_count-append now (x ∷ xs) ys = omega (arith, recent_count-append now xs ys)

  pub Ascending-append :
      (lo hi t : ℕ) (xs : List ℕ) → Ascending lo hi xs → hi ≤ t → Ascending lo t (xs ++ (t ∷ []))
  Ascending-append lo hi t [] a h = (omega arith, omega arith)
  Ascending-append lo hi t (x ∷ xs) a h = (a.0, Ascending-append x hi t xs a.1 h)

  pub Ascending-mono :
      (lo lo' hi hi' : ℕ) (xs : List ℕ)
      → lo' ≤ lo
      → hi ≤ hi'
      → Ascending lo hi xs
      → Ascending lo' hi' xs
  Ascending-mono lo lo' hi hi' [] p q a = omega arith
  Ascending-mono lo lo' hi hi' (x ∷ xs) p q a =
      (omega arith, Ascending-mono x x hi hi' xs (omega arith) q a.1)

  -- From a recent time on, all later times are recent.
  all_recent :
      (now lo hi : ℕ) (xs : List ℕ)
      → Ascending lo hi xs
      → now ≤ lo + window
      → recent_count window now xs ≡ length xs
  all_recent now lo hi [] a h = refl
  all_recent now lo hi (x ∷ xs) a h = ground (arith, all_recent now x hi xs a.1)

  -- What `drop_old` removes is not recent, now or later; what it leaves is.
  drop_old-Ascending :
      (now lo hi : ℕ) (xs : List ℕ) → Ascending lo hi xs → Ascending lo hi (drop_old window now xs)
  unfolding drop_old
  drop_old-Ascending now lo hi [] a = a
  drop_old-Ascending now lo hi (x ∷ xs) a = ground (
    arith,
    drop_old-Ascending now x hi xs a.1,
    Ascending-mono x lo hi hi (drop_old window now xs),
  )

  recent_count-drop_old :
      (now later : ℕ) (xs : List ℕ)
      → now ≤ later
      → recent_count window later (drop_old window now xs) ≡ recent_count window later xs
  unfolding drop_old
  recent_count-drop_old now later [] h = refl
  recent_count-drop_old now later (x ∷ xs) h = ground (arith, recent_count-drop_old now later xs h)

  length-drop_old :
      (now lo hi : ℕ) (xs : List ℕ)
      → Ascending lo hi xs
      → length (drop_old window now xs) ≡ recent_count window now xs
  unfolding drop_old
  length-drop_old now lo hi [] a = refl
  length-drop_old now lo hi (x ∷ xs) a =
      ground (arith, length-drop_old now x hi xs a.1, all_recent now x hi xs a.1)

  -- Dropping from the front loses recent times only where all that is left is recent.
  drop-Ascending : (n lo hi : ℕ) (xs : List ℕ) → Ascending lo hi xs → Ascending lo hi (drop n xs)
  drop-Ascending zero lo hi xs a = a
  drop-Ascending (suc n) lo hi [] a = a
  drop-Ascending (suc n) lo hi (x ∷ xs) a =
      Ascending-mono x lo hi hi (drop n xs) a.0 (omega arith) (drop-Ascending n x hi xs a.1)

  recent_count-drop :
      (n now lo hi : ℕ) (xs : List ℕ)
      → Ascending lo hi xs
      → min (length (drop n xs)) (recent_count window now xs) ≡ recent_count window now (drop n xs)
  recent_count-drop zero now lo hi xs a = omega (arith, recent_count-le now xs)
  recent_count-drop (suc n) now lo hi [] a = omega arith
  recent_count-drop (suc n) now lo hi (x ∷ xs) a = ground (
    arith,
    recent_count-drop n now x hi xs a.1,
    all_recent now x hi xs a.1,
    length-drop n xs,
    recent_count-le now (drop n xs),
  )

  -- The bounded list stands for a history: every later count agrees as far as it can matter.
  pub record Stands (threshold last : ℕ) (entries history : List ℕ) : Type 0 where
    pub ordered : Ascending 0 last entries
    pub agrees :
        (later : ℕ)
        → last ≤ later
        → min (threshold + 1) (recent_count window later entries)
          ≡ min (threshold + 1) (recent_count window later history)

  trim-min :
      (threshold now lo hi : ℕ) (xs : List ℕ)
      → Ascending lo hi xs
      → min (threshold + 1) (recent_count window now (trim threshold xs))
        ≡ min (threshold + 1) (recent_count window now xs)
  unfolding trim
  trim-min threshold now lo hi xs a = elim (Bool-cases (ltb (threshold + 1) (length xs))) [
    | inl long ↦ rw long (
        omega (
          tests,
          recent_count-drop (length xs - threshold - 1) now lo hi xs a,
          length-drop (length xs - threshold - 1) xs,
        ))
    | inr short ↦ rw short
  ]

  length-trim :
      (threshold : ℕ) (xs : List ℕ) → length (trim threshold xs) ≡ min (threshold + 1) (length xs)
  unfolding trim
  length-trim threshold xs = elim (Bool-cases (ltb (threshold + 1) (length xs))) [
    | inl long ↦ rw long (omega (tests, length-drop (length xs - threshold - 1) xs))
    | inr short ↦ rw short (omega tests)
  ]

  trim-Ascending :
      (threshold lo hi : ℕ) (xs : List ℕ) → Ascending lo hi xs → Ascending lo hi (trim threshold xs)
  unfolding trim
  trim-Ascending threshold lo hi xs a =
      ground (arith, drop-Ascending (length xs - threshold - 1) lo hi xs a)

  pub empty-Stands : (threshold last : ℕ) → Stands threshold last [] []
  empty-Stands threshold last = record { ordered = omega arith; agrees = λ later h. refl }

  pub later-Stands :
      (threshold last now : ℕ) (entries history : List ℕ)
      → last ≤ now
      → Stands threshold last entries history
      → Stands threshold now entries history
  later-Stands threshold last now entries history h v = record {
    ordered = Ascending-mono 0 0 last now entries (omega arith) h v.ordered;
    agrees = λ later k. v.agrees later (omega arith);
  }

  pub drop_old-Stands :
      (threshold last now : ℕ) (entries history : List ℕ)
      → last ≤ now
      → Stands threshold last entries history
      → Stands threshold now (drop_old window now entries) history
  drop_old-Stands threshold last now entries history h v = record {
    ordered =
        Ascending-mono 0 0 last now (drop_old window now entries) (omega arith) h
          (drop_old-Ascending now 0 last entries v.ordered);
    agrees =
        λ later k. rw (recent_count-drop_old now later entries k) (v.agrees later (omega arith));
  }

  pub recorded-Stands :
      (threshold last now : ℕ) (entries history : List ℕ)
      → last ≤ now
      → Stands threshold last entries history
      → Stands threshold now (recorded threshold window now entries) (history ++ (now ∷ []))
  unfolding recorded
  recorded-Stands threshold last now entries history h v = record {
    ordered = trim-Ascending threshold 0 now added up;
    agrees = λ later k. omega (
      arith,
      trim-min threshold later 0 now added up,
      recent_count-append later (drop_old window now entries) (now ∷ []),
      recent_count-drop_old now later entries k,
      recent_count-append later history (now ∷ []),
      v.agrees later (omega arith),
    );
  }
    where
      added : List ℕ
      added = drop_old window now entries ++ (now ∷ [])

      up : Ascending 0 now added
      up =
          Ascending-append 0 last now (drop_old window now entries)
            (drop_old-Ascending now 0 last entries v.ordered) h

  -- The bounded list raises the signal just where the whole history would.
  pub recorded_signal :
      (threshold last now : ℕ) (entries history : List ℕ)
      → last ≤ now
      → Stands threshold last entries history
      → leb threshold (length (recorded threshold window now entries))
        ≡ leb threshold (recent_count window now (history ++ (now ∷ [])))
  unfolding recorded
  recorded_signal threshold last now entries history h v = ground (
    arith,
    length-trim threshold (drop_old window now entries ++ (now ∷ [])),
    length-append (drop_old window now entries) (now ∷ []),
    length-drop_old now 0 last entries v.ordered,
    recent_count-append now history (now ∷ []),
    v.agrees now h,
  )
