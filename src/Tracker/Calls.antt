-- ===== src/Tracker/Calls.antt =====
-- The exported methods of the tracker as steps.
use sip_exporter.Prelude.{ℕ, String, List, [], ◌∷◌}
use sip_exporter.Prelude.Int.{ℤ}
use sip_exporter.Rtp.{Header}
use sip_exporter.Stream.{FloatOps}
use sip_exporter.Tracker.{Endpoint, MediaLabels, Tracker}
use sip_exporter.Tracker.Index.{cleanup}
use sip_exporter.Tracker.Media.{register, register_rtcp, unregister, replace}
use sip_exporter.Tracker.Alias.{learn_source_alias}
use sip_exporter.Tracker.Rtp.{observe_packet}
use sip_exporter.Tracker.Rtcp.{record_rtcp, snapshot}

pub data Call : Type 0 where
  registers : Endpoint → MediaLabels → Call
  registers_rtcp : Endpoint → Endpoint → String → Call
  unregisters replaces : String → Call
  learns : String → Endpoint → Endpoint → Call
  observes : Endpoint → Endpoint → Header → ℕ → Call
  cleans : ℕ → Call
  records : ℕ → ℕ → ℤ → Endpoint → Endpoint → Call
  snapshots : Call

module _ {F : Type 0} ⦃fl : FloatOps F⦄ where
  abbrev pub step : Tracker F → Call → Tracker F
  step t (registers key labels) = (register t key labels).0
  step t (registers_rtcp key rtp c) = (register_rtcp t key rtp c).0
  step t (unregisters c) = (unregister t c).0
  step t (replaces c) = (replace t c).0
  step t (learns c matched source) = (learn_source_alias t c matched source).0
  step t (observes src dst h arrival) = (observe_packet t src dst h arrival).0
  step t (cleans now) = cleanup t now
  step t (records now ssrc cumulative src dst) = (record_rtcp t now ssrc cumulative src dst).0
  step t snapshots = (snapshot t).0

  abbrev pub steps : Tracker F → List Call → Tracker F
  steps t [] = t
  steps t (x ∷ xs) = steps (step t x) xs
