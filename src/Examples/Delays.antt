-- ===== src/Examples/Delays.antt =====
-- An INVITE that rings twice and is answered twice.
use sip_exporter.Invites.{Bytes-discrete}
use sip_exporter.Prelude.{ℕ_discrete, ◌≡◌, refl, List, [], ◌∷◌}
use sip_exporter.Prelude.Int.{pos}
use sip_exporter.Prelude.Assoc.{lookup, insert, delete}
use sip_exporter.Text.{codes}
use sip_exporter.Delays.{
  Labels, Measure, ttr, pdd, store_invite_time, remove_invite_time, mark_ttr_measured,
  mark_pdd_measured, measure_ttr, measure_pdd, handle_provisional_response, handle_invite_response,
  DelayCall, stores_invite, answers_invite, delay_steps, no_delays,
}

abbrev labels : Labels
labels = record { carrier = codes "a"; ua_type = codes "b"; source_country = codes "c" }

abbrev calls : List DelayCall
calls =
    stores_invite (codes "x") labels (codes "in") 100
    ∷ answers_invite (codes "x") (codes "180") 130
    ∷ answers_invite (codes "x") (codes "180") 140
    ∷ answers_invite (codes "x") (codes "200") 150
    ∷ answers_invite (codes "x") (codes "180") 160
    ∷ []

abbrev both_measured : List Measure
both_measured =
    record {
      kind = ttr;
      call_id = codes "x";
      labels = labels;
      direction = codes "in";
      delay = pos 30;
    }
    ∷ record {
      kind = pdd;
      call_id = codes "x";
      labels = labels;
      direction = codes "in";
      delay = pos 30;
    }
    ∷ []

rings_once : (delay_steps no_delays calls).1 ≡ both_measured
unfolding lookup insert delete store_invite_time remove_invite_time mark_ttr_measured
    mark_pdd_measured measure_ttr measure_pdd handle_provisional_response handle_invite_response
    Bytes-discrete ℕ_discrete
rings_once = refl
