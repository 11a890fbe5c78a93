-- ===== src/Examples/Invites.antt =====
-- The INVITE transactions of internal/exporter/exporter.go at concrete inputs.
use sip_exporter.Prelude.{
  ℕ, ◌+◌, ◌≡◌, refl, Bool, true, false, List, [], ◌∷◌, some, arith, ℕ_discrete,
}
use sip_exporter.Prelude.Assoc.{lookup, IsMap}
use sip_exporter.Invites.{
  InviteSdpKey, InviteSdpKey-discrete, Bytes-discrete, invite_key, Invites, Response,
  default_invite_ttl, normalize_dialog_id, classify_response, InviteCall, observes_invite,
  classifies, cleans_invites,
}
use sip_exporter.Invites.First.{processed, CleansBefore, process_once}

abbrev call : InviteSdpKey
call = record { call_id = 97 ∷ []; cseq_id = 49 ∷ []; from_tag = 120 ∷ [] }

abbrev ok_from : ℕ → Response
ok_from tag = record { key = call; to_tag = tag ∷ []; status = 50 ∷ 48 ∷ 48 ∷ [] }

abbrev no_dialogs : List ℕ → Bool
no_dialogs id = false

-- An INVITE that was seen at 5.
abbrev invited : Invites
invited = record {
  transactions = (call, record { reinvite = false; final = false; timestamp = 5 }) ∷ [];
  closed_calls = [];
}

-- A forked 200 OK, the INVITE again, and a clean-up.
abbrev later_calls : List InviteCall
later_calls =
    classifies no_dialogs (ok_from 122) 12
    ∷ observes_invite call false 13
    ∷ cleans_invites 60_000_000_010
    ∷ classifies no_dialogs (ok_from 121) 60_000_000_011
    ∷ []

first_processed : (classify_response invited no_dialogs (ok_from 121) 10).1.process_200 ≡ true
unfolding classify_response lookup InviteSdpKey-discrete Bytes-discrete ℕ_discrete
first_processed = refl

in_time : CleansBefore (10 + default_invite_ttl) later_calls
in_time = (omega arith, tt)

has_each_once : IsMap invited.transactions
unfolding lookup
has_each_once = (refl, tt)

process_once_example :
    processed call invited (classifies no_dialogs (ok_from 121) 10 ∷ later_calls) ≡ 1
process_once_example =
    process_once invited no_dialogs (ok_from 121) 10 later_calls has_each_once first_processed
      in_time

-- One dialog, whoever sends.
identifier :
    normalize_dialog_id (97 ∷ []) (121 ∷ []) (120 ∷ []) ≡ some (97 ∷ 58 ∷ 120 ∷ 58 ∷ 121 ∷ [])
unfolding normalize_dialog_id
identifier = refl
