-- ===== src/Tracker/Loss.antt =====
-- The loss that the receiver reports of a stream add up to.
use sip_exporter.Prelude.{
  ℕ, ◌+◌, ◌^◌, ◌≡◌, ◌<◌, ◌≤◌, ◌∙◌, ap, ap₂, refl, sym, subst, true, false, List, [], ◌∷◌,
  if◌then◌else◌, arith,
}
use sip_exporter.Prelude.Int.{ℤ, pos, negsuc, pos_part, neg_part, ◌-ℤ◌, ◌≤ℤ◌}
use sip_exporter.Tracker.{StreamEntry}
use sip_exporter.Tracker.Rtcp.{record_loss, is_negative}

-- The values of a signed field of 24 bits.
abbrev pub Signed24 : ℤ → Type 0
Signed24 z = (pos_part z < 2 ^ 23) × (neg_part z ≤ 2 ^ 23)

-- The reports that follow `z`, none of them smaller than the one before it.
abbrev pub Rising : ℤ → List ℤ → Type 0
Rising z [] = Signed24 z
Rising z (y ∷ ys) = Signed24 z × (z ≤ℤ y) × Rising y ys

abbrev pub last_of : ℤ → List ℤ → ℤ
last_of z [] = z
last_of z (y ∷ ys) = last_of y ys

Signed24-first : (z : ℤ) (ys : List ℤ) → Rising z ys → Signed24 z
Signed24-first z [] r = r
Signed24-first z (y ∷ ys) r = r.0

le_ℤ_trans : (a b c : ℤ) → a ≤ℤ b → b ≤ℤ c → a ≤ℤ c
le_ℤ_trans a b c h g = omega (arith, h, g)

Rising_last : (z : ℤ) (ys : List ℤ) → Rising z ys → z ≤ℤ last_of z ys
Rising_last z [] r = omega arith
Rising_last z (y ∷ ys) r = le_ℤ_trans z y (last_of y ys) r.1 (Rising_last y ys r.2)

-- Differences add up.
minus_add :
    (a b c : ℤ)
    → a ≤ℤ b
    → b ≤ℤ c
    → is_negative b ≡ false
    → pos_part (b -ℤ a) + (if is_negative c then 0 else pos_part (c -ℤ b))
      ≡ (if is_negative c then 0 else pos_part (c -ℤ a))
minus_add (pos a) (pos b) (pos c) h g n = ground arith
minus_add (negsuc a) (pos b) (pos c) h g n = ground arith
minus_add (pos a) (pos b) (negsuc c) h g n = absurd (omega (arith, g))
minus_add (negsuc a) (pos b) (negsuc c) h g n = absurd (omega (arith, g))
minus_add a (negsuc b) c h g n = absurd (ground (arith, n))

zero_plus : (n : ℕ) → 0 + n ≡ n
zero_plus n = omega arith

baseline_only :
    (a z : ℤ)
    → (is_negative z ≡ false → a ≡ z)
    → 0 ≡ (if is_negative z then 0 else pos_part (z -ℤ a))
baseline_only a (negsuc n) same = refl
baseline_only a (pos n) same = rw (same refl) (ground arith)

module _ {F : Type 0} where
  record_loss_first :
      (e : StreamEntry F) (z : ℤ)
      → e.rtcp_loss_seen ≡ false
      → ((record_loss e z).0.rtcp_loss_seen ≡ true)
        × ((record_loss e z).0.rtcp_prev_loss ≡ z)
        × ((record_loss e z).1 ≡ 0)
  unfolding record_loss
  record_loss_first e (pos n) fresh = (refl, refl, ground (arith, fresh))
  record_loss_first e (negsuc n) fresh = (ground (arith, fresh), ground (arith, fresh), refl)

  -- The increase over the baseline `a`.
  record_loss_rises :
      (e : StreamEntry F) (n : ℕ)
      → e.rtcp_loss_seen ≡ true
      → Signed24 e.rtcp_prev_loss
      → Signed24 (pos n)
      → e.rtcp_prev_loss ≤ℤ pos n
      → (record_loss e (pos n)).1 ≡ pos_part (pos n -ℤ e.rtcp_prev_loss)
  unfolding record_loss
  record_loss_rises e n seen bounded b low = ground (arith, seen, bounded.0, bounded.1, b.0, low)

  -- The reports of a stream in their order, and what they add to the counter.
  abbrev pub record_all : StreamEntry F → List ℤ → StreamEntry F × ℕ
  record_all e [] = (e, 0)
  record_all e (y ∷ ys) =
      let (after, delta) = record_loss e y in
      let (last, total) = record_all after ys in (last, delta + total)

  -- From a baseline on, `z` being the last report.
  record_all_seen :
      (e : StreamEntry F) (z : ℤ) (ys : List ℤ)
      → e.rtcp_loss_seen ≡ true
      → Signed24 e.rtcp_prev_loss
      → e.rtcp_prev_loss ≤ℤ z
      → (is_negative z ≡ false → e.rtcp_prev_loss ≡ z)
      → Rising z ys
      → (record_all e ys).1
        ≡ (if is_negative (last_of z ys) then 0 else pos_part (last_of z ys -ℤ e.rtcp_prev_loss))
  unfolding record_loss
  record_all_seen e z [] seen bounded low same r = baseline_only e.rtcp_prev_loss z same
  record_all_seen e z (negsuc n ∷ ys) seen bounded low same r =
      let rest =
        record_all_seen e (negsuc n) ys seen bounded
          (le_ℤ_trans e.rtcp_prev_loss z (negsuc n) low r.1) (λ h. absurd (ground (arith, h)))
          r.2 in
      simp seen (zero_plus (record_all e ys).1 ∙ rest)
  record_all_seen e z (pos n ∷ ys) seen bounded low same r =
      let after : StreamEntry F = record e { rtcp_prev_loss = pos n; rtcp_loss_seen = true } in
      let above = le_ℤ_trans e.rtcp_prev_loss z (pos n) low r.1 in
      let rest =
        record_all_seen after (pos n) ys refl (Signed24-first (pos n) ys r.2) (omega arith)
          (λ h. refl) r.2 in
      let first = record_loss_rises e n seen bounded (Signed24-first (pos n) ys r.2) above in
      ap₂ (λ a b. a + b) first rest
      ∙ minus_add e.rtcp_prev_loss (pos n) (last_of (pos n) ys) above (Rising_last (pos n) ys r.2)
          refl

  -- The reports of a stream that has none yet, of which none is smaller than the one before it, add
  -- the last of them less the first to the counter, and nothing while the reports are negative. The
  -- reports are in the range of their field of 24 bits.
  pub record_all-last_of :
      (e : StreamEntry F) (z : ℤ) (ys : List ℤ)
      → e.rtcp_loss_seen ≡ false
      → Rising z ys
      → (record_all e (z ∷ ys)).1
        ≡ (if is_negative (last_of z ys) then 0 else pos_part (last_of z ys -ℤ z))
  unfolding record_loss
  record_all-last_of e z ys fresh r =
      let after = (record_loss e z).0 in
      let (seen, base, none_added) = record_loss_first e z fresh in
      let rest =
        record_all_seen after z ys seen (subst Signed24 (sym base) (Signed24-first z ys r))
          (subst (λ p. p ≤ℤ z) (sym base) (omega arith)) (λ h. base) r in
      ap₂ (λ a b. a + b) none_added
        (rest
          ∙ ap (λ p. if is_negative (last_of z ys) then 0 else pos_part (last_of z ys -ℤ p)) base)
      ∙ zero_plus _
