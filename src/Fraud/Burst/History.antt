-- ===== src/Fraud/Burst/History.antt =====
-- The INVITE burst tracker against the full history of every source.
use mathlib.Core.List.{append-nil, append_assoc}
use sip_exporter.Prelude.{
  ℕ, ◌≤◌, ◌≡◌, ◌≢◌, refl, ap₂, ◌∙◌, sym, subst, subst₂, List, [], ◌∷◌, ◌++◌, leb, arith, length,
  String, String-discrete, string_key, ite, if_pos, if_neg, none, some,
}
use sip_exporter.Prelude.Assoc.{lookup, insert, lookup_list, IsMap, lookup-insert, insert-IsMap}
use sip_exporter.Fraud.Burst.{
  InviteBurstTracker, drop_old, recorded, record_invite, cleanup_invite, sweep_sources,
  new_invite_burst_tracker,
}
use sip_exporter.Fraud.Burst.Window.{
  recent_count, Stands, empty-Stands, later-Stands, drop_old-Stands, recorded-Stands,
  recorded_signal,
}

-- A call of the tracker, with its clock.
pub data Event : Type 0 where
  invite : ℕ → String → Event
  cleans : ℕ → Event

abbrev pub time : Event → ℕ
time (invite now src) = now
time (cleans now) = now

abbrev pub step : InviteBurstTracker → Event → InviteBurstTracker
step t (invite now src) = (record_invite t now src).0
step t (cleans now) = cleanup_invite t now

abbrev pub steps : InviteBurstTracker → List Event → InviteBurstTracker
steps t [] = t
steps t (e ∷ es) = steps (step t e) es

-- The clock does not go back.
abbrev pub Timed : ℕ → ℕ → List Event → Type 0
Timed last now [] = last ≤ now
Timed last now (e ∷ es) = (last ≤ time e) × Timed (time e) now es

-- The times of all INVITEs of one source, oldest first.
abbrev pub times_of : String → List Event → List ℕ
times_of ip [] = []
times_of ip (cleans now ∷ es) = times_of ip es
times_of ip (invite now src ∷ es) =
    ite (String-discrete src ip) (now ∷ times_of ip es) (times_of ip es)

lookup_list-insert :
    (k j : String) (xs : List ℕ) (m : List (String × List ℕ))
    → lookup_list j (insert k xs m) ≡ ite (String-discrete k j) xs (lookup_list j m)
lookup_list-insert k j xs m = ground (arith, lookup-insert k j xs m)

lookup-sweep_none :
    (window now : ℕ) (ip : String) (m : List (String × List ℕ))
    → lookup ip m ≡ none
    → lookup ip (sweep_sources window now m) ≡ none
unfolding lookup sweep_sources
lookup-sweep_none window now ip [] h = refl
lookup-sweep_none window now ip ((j, xs) ∷ m) h = ground (arith, lookup-sweep_none window now ip m)

lookup_list-sweep :
    (window now : ℕ) (ip : String) (m : List (String × List ℕ))
    → IsMap m
    → lookup_list ip (sweep_sources window now m) ≡ drop_old window now (lookup_list ip m)
unfolding lookup sweep_sources
lookup_list-sweep window now ip [] h = unfold drop_old in refl
lookup_list-sweep window now ip ((j, xs) ∷ m) h =
    ground (arith, lookup_list-sweep window now ip m h.1, lookup-sweep_none window now ip m)

sweep-IsMap :
    (window now : ℕ) (m : List (String × List ℕ)) → IsMap m → IsMap (sweep_sources window now m)
unfolding sweep_sources
sweep-IsMap window now [] h = h
sweep-IsMap window now ((j, xs) ∷ m) h =
    ground (arith, sweep-IsMap window now m h.1, lookup-sweep_none window now j m)

lookup_list-invite :
    (t : InviteBurstTracker) (now : ℕ) (src ip : String)
    → src ≢ ""
    → lookup_list ip (record_invite t now src).0.entries
      ≡ ite
          (String-discrete src ip)
          (recorded t.threshold t.window now (lookup_list ip t.entries))
          (lookup_list ip t.entries)
unfolding record_invite
lookup_list-invite t now src ip h = ground (
  arith,
  lookup_list-insert src ip (recorded t.threshold t.window now (lookup_list src t.entries))
      t.entries,
)

invite_nameless :
    (t : InviteBurstTracker) (now : ℕ) (src : String) → src ≡ "" → (record_invite t now src).0 ≡ t
unfolding record_invite
invite_nameless t now src h = ground arith

invite-IsMap :
    (t : InviteBurstTracker) (now : ℕ) (src : String)
    → IsMap t.entries
    → IsMap (record_invite t now src).0.entries
unfolding record_invite
invite-IsMap t now src m = ground (
  arith,
  insert-IsMap src (recorded t.threshold t.window now (lookup_list src t.entries)) t.entries m,
)

step_settings :
    (t : InviteBurstTracker) (e : Event)
    → ((step t e).threshold ≡ t.threshold) × ((step t e).window ≡ t.window)
unfolding record_invite cleanup_invite
step_settings t (invite now src) = ground arith
step_settings t (cleans now) = (refl, refl)

step-IsMap : (t : InviteBurstTracker) (e : Event) → IsMap t.entries → IsMap (step t e).entries
unfolding cleanup_invite
step-IsMap t (invite now src) m = invite-IsMap t now src m
step-IsMap t (cleans now) m = sweep-IsMap t.window now t.entries m

-- One call keeps the list of a source in step with the history of that source.
step-Stands :
    (t : InviteBurstTracker) (e : Event) (last : ℕ) (ip : String) (history : List ℕ)
    → ip ≢ ""
    → last ≤ time e
    → IsMap t.entries
    → Stands t.window t.threshold last (lookup_list ip t.entries) history
    → Stands t.window t.threshold
        (time e)
        (lookup_list ip (step t e).entries)
        (history ++ times_of ip (e ∷ []))
unfolding cleanup_invite
step-Stands t (cleans now) last ip history named h m v =
    rw (append-nil history, lookup_list-sweep t.window now ip t.entries m)
      (drop_old-Stands t.window t.threshold last now (lookup_list ip t.entries) history h v)
step-Stands t (invite now src) last ip history named h m v = elim (String-discrete src "") [
  | yes e ↦
      rw
        (
          invite_nameless t now src e,
          if_neg _ (λ (p : src ≡ ip). named (sym p ∙ e)),
          append-nil history,
        )
        (later-Stands t.window t.threshold last now (lookup_list ip t.entries) history h v)
  | no src_named ↦ elim (String-discrete src ip) [
    | yes same ↦
        rw (lookup_list-invite t now src ip src_named, if_pos _ same, if_pos _ same)
          (recorded-Stands t.window t.threshold last now (lookup_list ip t.entries) history h v)
    | no other ↦
        rw
          (
            lookup_list-invite t now src ip src_named,
            if_neg _ other,
            if_neg _ other,
            append-nil history,
          )
          (later-Stands t.window t.threshold last now (lookup_list ip t.entries) history h v)
  ]
]

times_of-cons :
    (ip : String) (e : Event) (es : List Event)
    → times_of ip (e ∷ es) ≡ times_of ip (e ∷ []) ++ times_of ip es
times_of-cons ip (invite now src) es = ground arith
times_of-cons ip (cleans now) es = refl

-- The settings never change, so a list may be read under the first ones.
Stands-settings :
    {w w' th th' : ℕ} (last : ℕ) (entries history : List ℕ)
    → w ≡ w'
    → th ≡ th'
    → Stands w th last entries history
    → Stands w' th' last entries history
Stands-settings last entries history p q v = subst₂ (λ a b. Stands a b last entries history) p q v

steps-Stands :
    (t : InviteBurstTracker) (es : List Event) (last now : ℕ) (ip : String) (history : List ℕ)
    → ip ≢ ""
    → Timed last now es
    → IsMap t.entries
    → Stands t.window t.threshold last (lookup_list ip t.entries) history
    → Stands t.window t.threshold now
        (lookup_list ip (steps t es).entries)
        (history ++ times_of ip es)
steps-Stands t [] last now ip history named h m v =
    rw (append-nil history)
      (later-Stands t.window t.threshold last now (lookup_list ip t.entries) history h v)
steps-Stands t (e ∷ es) last now ip history named h m v =
    let (same_threshold, same_window) = step_settings t e in
    rw (times_of-cons ip e es, ← append_assoc history (times_of ip (e ∷ [])) (times_of ip es))
      (Stands-settings now (lookup_list ip (steps (step t e) es).entries) _ same_window
        same_threshold
        (steps-Stands (step t e) es (time e) now ip (history ++ times_of ip (e ∷ [])) named h.1
          (step-IsMap t e m)
          (Stands-settings (time e) (lookup_list ip (step t e).entries) _ (sym same_window)
            (sym same_threshold) (step-Stands t e last ip history named h.0 m v))))

signal_of :
    (t : InviteBurstTracker) (now : ℕ) (ip : String)
    → ip ≢ ""
    → (record_invite t now ip).1
      ≡ leb t.threshold (length (recorded t.threshold t.window now (lookup_list ip t.entries)))
unfolding record_invite
signal_of t now ip h = ground arith

steps_settings :
    (t : InviteBurstTracker) (es : List Event)
    → ((steps t es).threshold ≡ t.threshold) × ((steps t es).window ≡ t.window)
steps_settings t [] = (refl, refl)
steps_settings t (e ∷ es) = ground (arith, steps_settings (step t e) es, step_settings t e)

new_tracker :
    (threshold window : ℕ) (t : InviteBurstTracker)
    → new_invite_burst_tracker threshold window ≡ some t
    → t ≡ record { threshold = threshold; window = window; entries = [] }
unfolding new_invite_burst_tracker
new_tracker threshold window t e = ground arith

signal_from :
    (t : InviteBurstTracker) (es : List Event) (now : ℕ) (ip : String)
    → IsMap t.entries
    → Stands t.window t.threshold 0 (lookup_list ip t.entries) []
    → Timed 0 now es
    → ip ≢ ""
    → (record_invite (steps t es) now ip).1
      ≡ leb t.threshold (recent_count t.window now (times_of ip es ++ (now ∷ [])))
signal_from t es now ip m v timed named =
    let u = steps t es in
    let (same_threshold, same_window) = steps_settings t es in
    signal_of u now ip named
    ∙ recorded_signal u.window u.threshold now now (lookup_list ip u.entries) (times_of ip es)
        (omega arith)
        (Stands-settings now (lookup_list ip u.entries) (times_of ip es) (sym same_window)
          (sym same_threshold) (steps-Stands t es 0 now ip [] named timed m v))
    ∙ ap₂ (λ a b. leb a (recent_count b now (times_of ip es ++ (now ∷ [])))) same_threshold
        same_window

-- After any calls under a clock that does not go back, an INVITE raises the signal just when the
-- INVITEs that its source ever sent, this one included, number at least the threshold within the
-- window: neither the bound on the list nor the clean-up ever changes the answer.
pub record_invite_signal :
    (threshold window : ℕ) (t : InviteBurstTracker) (es : List Event) (now : ℕ) (ip : String)
    → new_invite_burst_tracker threshold window ≡ some t
    → Timed 0 now es
    → ip ≢ ""
    → (record_invite (steps t es) now ip).1
      ≡ leb threshold (recent_count window now (times_of ip es ++ (now ∷ [])))
record_invite_signal threshold window t es now ip made timed named =
    subst
      (λ u.
        (record_invite (steps u es) now ip).1
        ≡ leb threshold (recent_count window now (times_of ip es ++ (now ∷ []))))
      (sym (new_tracker threshold window t made))
      (signal_from _ es now ip tt (unfold lookup in empty-Stands window threshold 0) timed named)
