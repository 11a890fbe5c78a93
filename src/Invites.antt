-- ===== src/Invites.antt =====
-- internal/exporter/exporter.go: the INVITE transactions and the identifier of a dialog. Byte slices
-- are lists of bytes; each call runs under the mutex, and `now` is the clock that it reads.
pub mod First
use sip_exporter.Prelude.{
  ℕ, ◌+◌, ◌*◌, ◌^◌, Bool, true, false, not, ◌&&◌, ◌||◌, List, [], ◌∷◌, ◌++◌, Option, none, some,
  is_some, some_or, ite, ◌==◌, if◌then◌else◌, ltb, Key, ℕ_discrete,
}
use sip_exporter.Prelude.Assoc.{lookup, insert, retain}

unfoldable pub Bytes-discrete : Discrete (List ℕ)
Bytes-discrete = hlevel ℕ_discrete

-- `bytes.Compare(a, b) <= 0`
abbrev pub bytes_leb : List ℕ → List ℕ → Bool
bytes_leb [] b = true
bytes_leb (x ∷ a) [] = false
bytes_leb (x ∷ a) (y ∷ b) = let rest = bytes_leb a b in if ltb x y then true else x == y && rest

abbrev pub is_empty : List ℕ → Bool
is_empty [] = true
is_empty (x ∷ a) = false

-- `normalizeDialogID`; 58 is the colon.
unfoldable pub normalize_dialog_id : List ℕ → List ℕ → List ℕ → Option (List ℕ)
normalize_dialog_id call_id from_tag to_tag =
    if is_empty from_tag || is_empty to_tag
    then none
    else if bytes_leb from_tag to_tag
    then some (call_id ++ (58 ∷ (from_tag ++ (58 ∷ to_tag))))
    else some (call_id ++ (58 ∷ (to_tag ++ (58 ∷ from_tag))))

pub record InviteSdpKey : Type 0 where
  pub call_id : List ℕ
  pub cseq_id : List ℕ
  pub from_tag : List ℕ

unfoldable pub InviteSdpKey-discrete : Discrete InviteSdpKey
InviteSdpKey-discrete = hlevel ℕ_discrete

instance abbrev pub invite_key : Key InviteSdpKey
invite_key = record { same = InviteSdpKey-discrete }

instance abbrev pub bytes_key : Key (List ℕ)
bytes_key = record { same = Bytes-discrete }

pub record InviteTransaction : Type 0 where
  pub reinvite : Bool
  pub final : Bool
  pub timestamp : ℕ

pub record Invites : Type 0 where
  pub transactions : List (InviteSdpKey × InviteTransaction)
  pub closed_calls : List (List ℕ × ℕ)

-- The fields of `dto.Packet` that are read here.
pub record Response : Type 0 where
  pub key : InviteSdpKey
  pub to_tag : List ℕ
  pub status : List ℕ

pub record Classes : Type 0 where
  pub is_invite : Bool
  pub is_reinvite : Bool
  pub process_200 : Bool

abbrev pub default_invite_ttl : ℕ
default_invite_ttl = 60 * 10 ^ 9

-- `packet.ResponseStatus[0] == '1'`
abbrev pub is_provisional : List ℕ → Bool
is_provisional [] = false
is_provisional (c ∷ rest) = c == 49

abbrev pub is_200 : List ℕ → Bool
is_200 status = ite (Bytes-discrete status (50 ∷ 48 ∷ 48 ∷ [])) true false

abbrev pub is_final : Option InviteTransaction → Bool
is_final none = false
is_final (some e) = e.final

unfoldable pub observe_invite : Invites → InviteSdpKey → Bool → ℕ → Invites
observe_invite t key reinvite now = if is_final (lookup key t.transactions) then t else record t {
  transactions =
      insert key (record { reinvite = reinvite; final = false; timestamp = now }) t.transactions;
}

-- A response without a transaction belongs to a re-INVITE if its dialog is active.
abbrev pub unseen : (List ℕ → Bool) → Response → InviteTransaction
unseen is_active r = record {
  reinvite = elim (normalize_dialog_id r.key.call_id r.key.from_tag r.to_tag) [
    | none ↦ false
    | some id ↦ is_active id
  ];
  final = false;
  timestamp = 0;
}

-- `classifyInviteResponse`; `is_active` is `HasActiveDialog` at the time of the call.
unfoldable pub classify_response : Invites → (List ℕ → Bool) → Response → ℕ → Invites × Classes
unfolding normalize_dialog_id
classify_response t is_active r now =
    let found = lookup r.key t.transactions in
    let ok = is_some found in
    let transaction = some_or found (unseen is_active r) in
    if is_some (lookup r.key.call_id t.closed_calls) && (not ok || transaction.final)
    then (t, record { is_invite = false; is_reinvite = false; process_200 = false })
    else if is_provisional r.status
    then (
      t,
      record {
        is_invite = not ok || not transaction.reinvite;
        is_reinvite = ok && transaction.reinvite;
        process_200 = false;
      },
    )
    else if ok && transaction.final
    then (t, record { is_invite = false; is_reinvite = transaction.reinvite; process_200 = false })
    else (
      record t {
        transactions =
            insert r.key (record transaction { final = true; timestamp = now }) t.transactions;
      },
      record {
        is_invite = not transaction.reinvite;
        is_reinvite = transaction.reinvite;
        process_200 = is_200 r.status;
      },
    )

unfoldable pub close_invites : Invites → List ℕ → ℕ → Invites
close_invites t call_id now = record t { closed_calls = insert call_id now t.closed_calls }

unfoldable pub cleanup_invites : Invites → ℕ → Invites
cleanup_invites t now = record {
  transactions = retain (λ k e. not (ltb (e.timestamp + default_invite_ttl) now)) t.transactions;
  closed_calls =
      retain (λ c closed_at. not (ltb (closed_at + default_invite_ttl) now)) t.closed_calls;
}

pub data InviteCall : Type 0 where
  observes_invite : InviteSdpKey → Bool → ℕ → InviteCall
  classifies : (List ℕ → Bool) → Response → ℕ → InviteCall
  closes : List ℕ → ℕ → InviteCall
  cleans_invites : ℕ → InviteCall

abbrev pub invite_step : Invites → InviteCall → Invites
invite_step t (observes_invite key reinvite now) = observe_invite t key reinvite now
invite_step t (classifies is_active r now) = (classify_response t is_active r now).0
invite_step t (closes call_id now) = close_invites t call_id now
invite_step t (cleans_invites now) = cleanup_invites t now
