-- ===== src/Delays/Waiting.antt =====
-- Which requests wait in the tables, by the measure that they can give.
use sip_exporter.Prelude.{
  ℕ, ◌+◌, ◌≡◌, ◌≤◌, ap, ◌∙◌, Bool, false, List, [], ◌∷◌, Option, none, some, ite, if◌then◌else◌,
  arith,
}
use sip_exporter.Prelude.Assoc.{
  lookup, insert, delete, IsMap, lookup-insert, lookup-delete, lookup-retain,
}
use sip_exporter.Text.{Bytes}
use sip_exporter.Invites.{bytes_key, Bytes-discrete}
use sip_exporter.Delays.{
  Labels, Delays, Kind, ttr, pdd, ord, pbd, rrd, lrd, Measure, is_fresh, store_invite_time,
  cleanup_expired, DelayCall, stores_invite, stores_options, stores_bye, stores_register,
  new_invite,
}

-- The measures that a request can give; a registration gives one of two.
pub data Slot : Type 0 where
  first_answer ringing options bye registration : Slot

abbrev pub is_of : Slot → Kind → ℕ
is_of first_answer ttr = 1
is_of ringing pdd = 1
is_of options ord = 1
is_of bye pbd = 1
is_of registration rrd = 1
is_of registration lrd = 1
is_of s k = 0

-- One where the call is that of `c`.
abbrev pub named : Bytes → Bytes → ℕ
named d c = ite (Bytes-discrete d c) 1 0

abbrev pub stored : Slot → Bytes → DelayCall → ℕ
stored first_answer c (stores_invite d labels direction now) = named d c
stored ringing c (stores_invite d labels direction now) = named d c
stored options c (stores_options d labels now) = named d c
stored bye c (stores_bye d labels now) = named d c
stored registration c (stores_register d labels src_ip now) = named d c
stored s c call = 0

abbrev pub stores_of : Slot → Bytes → List DelayCall → ℕ
stores_of s c [] = 0
stores_of s c (call ∷ calls) = stored s c call + stores_of s c calls

abbrev pub measures_of : Slot → Bytes → List Measure → ℕ
measures_of s c [] = 0
measures_of s c (m ∷ ms) = ite (Bytes-discrete m.call_id c) (is_of s m.kind) 0 + measures_of s c ms

-- One where a request can still give its measure.
abbrev pub unless : Bool → ℕ
unless b = if b then 0 else 1

abbrev pub awaits : {A : Type 0} → (A → Bool) → Option A → ℕ
awaits given none = 0
awaits given (some e) = unless (given e)

abbrev pub waits : Slot → Bytes → Delays → ℕ
waits first_answer c t = awaits (λ e. e.ttr_measured) (lookup c t.invite_tracker)
waits ringing c t = awaits (λ e. e.pdd_measured) (lookup c t.invite_tracker)
waits options c t = awaits (λ e. false) (lookup c t.options_tracker)
waits bye c t = awaits (λ e. false) (lookup c t.bye_tracker)
waits registration c t = awaits (λ e. false) (lookup c t.register_tracker)

pub record AreMaps (t : Delays) : Type 0 where
  pub registers : IsMap t.register_tracker
  pub invites : IsMap t.invite_tracker
  pub requests : IsMap t.options_tracker
  pub byes : IsMap t.bye_tracker

module _ {A : Type 0} (given : A → Bool) (c : Bytes) where
  pub awaits-insert :
      (d : Bytes) (v : A) (m : List (Bytes × A))
      → awaits given (lookup c (insert d v m))
        ≡ ite (Bytes-discrete d c) (unless (given v)) (awaits given (lookup c m))
  awaits-insert d v m = ap (awaits given) (lookup-insert d c v m) ∙ ground arith

  pub awaits-delete :
      (d : Bytes) (m : List (Bytes × A))
      → awaits given (lookup c (delete d m))
        ≡ ite (Bytes-discrete d c) 0 (awaits given (lookup c m))
  awaits-delete d m = ap (awaits given) (lookup-delete d c m) ∙ ground arith

  pub awaits-cleanup :
      (created : A → ℕ) (now : ℕ) (m : List (Bytes × A))
      → IsMap m
      → awaits given (lookup c (cleanup_expired created now m)) ≤ awaits given (lookup c m)
  unfolding cleanup_expired
  awaits-cleanup created now m h =
      let p : Bytes → A → Bool = λ k e. is_fresh now (created e) in
      ground (arith, ap (awaits given) (lookup-retain p c m h))

pub stored_invite :
    (s : Slot) (c : Bytes) (t : Delays) (d : Bytes) (labels : Labels) (direction : Bytes) (now : ℕ)
    → waits s c (store_invite_time t d labels direction now)
      ≤ stored s c (stores_invite d labels direction now) + waits s c t
unfolding store_invite_time
stored_invite s c t d labels direction now = ground (
  arith,
  awaits-insert (λ e. e.ttr_measured) c d (new_invite labels direction now) t.invite_tracker,
  awaits-insert (λ e. e.pdd_measured) c d (new_invite labels direction now) t.invite_tracker,
)
