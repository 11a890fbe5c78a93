-- ===== src/Invites/First.antt =====
-- The first final response of an INVITE transaction.
use sip_exporter.Prelude.{
  ℕ, ◌+◌, ◌≡◌, ◌≤◌, ◌∙◌, refl, ap, Bool, true, false, not, ◌&&◌, ◌||◌, List, [], ◌∷◌, Option, some,
  is_some, some_or, ite, if◌then◌else◌, arith, ltb, Bool-cases, inl, inr,
}
use sip_exporter.Prelude.Assoc.{
  lookup, IsMap, lookup-insert, insert-IsMap, retain-IsMap, lookup-retain,
}
use sip_exporter.Invites.{
  InviteSdpKey, InviteSdpKey-discrete, invite_key, bytes_key, bytes_leb, InviteTransaction, Invites,
  Response, default_invite_ttl, is_provisional, is_final, normalize_dialog_id, observe_invite,
  unseen, classify_response, close_invites, cleanup_invites, InviteCall, observes_invite,
  classifies, closes, cleans_invites, invite_step,
}

-- The 200 OKs of a transaction that are processed.
abbrev pub processed : InviteSdpKey → Invites → List InviteCall → ℕ
processed k t [] = 0
processed k t (classifies is_active r now ∷ xs) =
    let after = classify_response t is_active r now in
    let rest = processed k after.0 xs in
    ite (InviteSdpKey-discrete r.key k) (if after.1.process_200 then 1 + rest else rest) rest
processed k t (observes_invite key reinvite now ∷ xs) =
    processed k (observe_invite t key reinvite now) xs
processed k t (closes call_id now ∷ xs) = processed k (close_invites t call_id now) xs
processed k t (cleans_invites now ∷ xs) = processed k (cleanup_invites t now) xs

-- No cleanup comes later than this.
abbrev pub CleansBefore : ℕ → List InviteCall → Type 0
CleansBefore limit [] = Unit {0}
CleansBefore limit (cleans_invites now ∷ xs) = (now ≤ limit) × CleansBefore limit xs
CleansBefore limit (observes_invite key reinvite now ∷ xs) = CleansBefore limit xs
CleansBefore limit (classifies is_active r now ∷ xs) = CleansBefore limit xs
CleansBefore limit (closes call_id now ∷ xs) = CleansBefore limit xs

-- The transaction has had its final response at that time.
pub record FinalAt (k : InviteSdpKey) (time : ℕ) (t : Invites) : Type 0 where
  pub entry : InviteTransaction
  pub present : lookup k t.transactions ≡ some entry
  pub had_final : entry.final ≡ true
  pub at_time : entry.timestamp ≡ time
  pub keyed : IsMap t.transactions

observe_invite-FinalAt :
    (k key : InviteSdpKey) (time now : ℕ) (reinvite : Bool) (t : Invites)
    → FinalAt k time t
    → FinalAt k time (observe_invite t key reinvite now)
unfolding observe_invite
observe_invite-FinalAt k key time now reinvite t v =
    elim (Bool-cases (is_final (lookup key t.transactions))) [
      | inl final ↦ rw final v
      | inr pending ↦
          let after : InviteTransaction = record {
            reinvite = reinvite;
            final = false;
            timestamp = now;
          } in
          rw pending (record {
            entry = v.entry;
            present =
                ground (
                  arith,
                  v.present,
                  v.had_final,
                  pending,
                  lookup-insert key k after t.transactions,
                );
            had_final = v.had_final;
            at_time = v.at_time;
            keyed = insert-IsMap key after t.transactions v.keyed;
          })
    ]

-- What a response does to the transactions.
abbrev settled_by : (List ℕ → Bool) → Response → ℕ → Option InviteTransaction → InviteTransaction
settled_by is_active r now found = record (some_or found (unseen is_active r)) {
  final = true;
  timestamp = now;
}

classify_keyed :
    (t : Invites) (is_active : List ℕ → Bool) (r : Response) (now : ℕ)
    → IsMap t.transactions
    → IsMap (classify_response t is_active r now).0.transactions
unfolding classify_response
classify_keyed t is_active r now v =
    let found = lookup r.key t.transactions in
    let transaction = some_or found (unseen is_active r) in
    elim (Bool-cases (
      is_some (lookup r.key.call_id t.closed_calls)
      && (not (is_some found) || transaction.final))) [
        | inl over ↦ rw over v
        | inr going ↦ elim (Bool-cases (is_provisional r.status)) [
          | inl provisional ↦ rw (going, provisional) v
          | inr last ↦ elim (Bool-cases (is_some found && transaction.final)) [
            | inl again ↦ rw (going, last, again) v
            | inr first ↦
                rw (going, last, first)
                  (insert-IsMap r.key (settled_by is_active r now found) t.transactions v)
          ]
        ]
      ]

classify_found :
    (k : InviteSdpKey) (t : Invites) (is_active : List ℕ → Bool) (r : Response) (now : ℕ)
    (e : InviteTransaction)
    → lookup k t.transactions ≡ some e
    → e.final ≡ true
    → lookup k (classify_response t is_active r now).0.transactions ≡ some e
unfolding classify_response
classify_found k t is_active r now e h f = ground (
  arith,
  h,
  f,
  lookup-insert r.key k (settled_by is_active r now (lookup r.key t.transactions)) t.transactions,
)

classify_again :
    (t : Invites) (is_active : List ℕ → Bool) (r : Response) (now : ℕ) (e : InviteTransaction)
    → lookup r.key t.transactions ≡ some e
    → e.final ≡ true
    → (classify_response t is_active r now).1.process_200 ≡ false
unfolding classify_response
classify_again t is_active r now e h f = ground (arith, h, f)

cleanup_keyed :
    (t : Invites) (now : ℕ) → IsMap t.transactions → IsMap (cleanup_invites t now).transactions
unfolding cleanup_invites
cleanup_keyed t now v =
    retain-IsMap (λ k e. not (ltb (e.timestamp + default_invite_ttl) now)) t.transactions v

cleanup_found :
    (k : InviteSdpKey) (t : Invites) (now : ℕ) (e : InviteTransaction)
    → IsMap t.transactions
    → lookup k t.transactions ≡ some e
    → now ≤ e.timestamp + default_invite_ttl
    → lookup k (cleanup_invites t now).transactions ≡ some e
unfolding cleanup_invites
cleanup_found k t now e v h young = ground (
  arith,
  h,
  young,
  lookup-retain (λ k e. not (ltb (e.timestamp + default_invite_ttl) now)) k t.transactions v,
)

-- A 200 OK that is processed settles its transaction.
process_settles :
    (t : Invites) (is_active : List ℕ → Bool) (r : Response) (now : ℕ)
    → IsMap t.transactions
    → (classify_response t is_active r now).1.process_200 ≡ true
    → FinalAt r.key now (classify_response t is_active r now).0
unfolding classify_response
process_settles t is_active r now v h = record {
  entry = settled_by is_active r now (lookup r.key t.transactions);
  present = ground (
    arith,
    h,
    lookup-insert r.key r.key (settled_by is_active r now (lookup r.key t.transactions))
        t.transactions,
  );
  had_final = refl;
  at_time = refl;
  keyed = classify_keyed t is_active r now v;
}

pub step-FinalAt :
    (k : InviteSdpKey) (time : ℕ) (t : Invites) (x : InviteCall)
    → CleansBefore (time + default_invite_ttl) (x ∷ [])
    → FinalAt k time t
    → FinalAt k time (invite_step t x)
unfolding close_invites
step-FinalAt k time t (observes_invite key reinvite now) c v =
    observe_invite-FinalAt k key time now reinvite t v
step-FinalAt k time t (classifies is_active r now) c v = record {
  entry = v.entry;
  present = classify_found k t is_active r now v.entry v.present v.had_final;
  had_final = v.had_final;
  at_time = v.at_time;
  keyed = classify_keyed t is_active r now v.keyed;
}
step-FinalAt k time t (closes call_id now) c v = record {
  entry = v.entry;
  present = v.present;
  had_final = v.had_final;
  at_time = v.at_time;
  keyed = v.keyed;
}
step-FinalAt k time t (cleans_invites now) c v = record {
  entry = v.entry;
  present = cleanup_found k t now v.entry v.keyed v.present (omega (arith, c.0, v.at_time));
  had_final = v.had_final;
  at_time = v.at_time;
  keyed = cleanup_keyed t now v.keyed;
}

none_processed :
    (k : InviteSdpKey) (time : ℕ) (t : Invites) (xs : List InviteCall)
    → CleansBefore (time + default_invite_ttl) xs
    → FinalAt k time t
    → processed k t xs ≡ 0
none_processed k time t [] c v = refl
none_processed k time t (classifies is_active r now ∷ xs) c v =
    let rest =
      none_processed k time (classify_response t is_active r now).0 xs c
        (step-FinalAt k time t (classifies is_active r now) tt v) in
    elim (InviteSdpKey-discrete r.key k) [
      | yes same ↦ ground (
        arith,
        rest,
        classify_again t is_active r now v.entry
            (ap (λ x. lookup x t.transactions) same ∙ v.present) v.had_final,
      )
      | no other ↦ ground (arith, rest, other)
    ]
none_processed k time t (observes_invite key reinvite now ∷ xs) c v =
    none_processed k time (observe_invite t key reinvite now) xs c
      (step-FinalAt k time t (observes_invite key reinvite now) tt v)
none_processed k time t (closes call_id now ∷ xs) c v =
    none_processed k time (close_invites t call_id now) xs c
      (step-FinalAt k time t (closes call_id now) tt v)
none_processed k time t (cleans_invites now ∷ xs) c v =
    none_processed k time (cleanup_invites t now) xs c.1
      (step-FinalAt k time t (cleans_invites now) (c.0, tt) v)

-- In a table that has each transaction once, a 200 OK to an INVITE that is processed is the only one
-- of its transaction: until a cleanup comes
-- more than the time to live after it, whatever INVITEs, responses, teardowns and cleanups follow, no
-- other is processed.
pub process_once :
    (t : Invites) (is_active : List ℕ → Bool) (r : Response) (now : ℕ) (xs : List InviteCall)
    → IsMap t.transactions
    → (classify_response t is_active r now).1.process_200 ≡ true
    → CleansBefore (now + default_invite_ttl) xs
    → processed r.key t (classifies is_active r now ∷ xs) ≡ 1
process_once t is_active r now xs v h c = ground (
  arith,
  h,
  none_processed r.key now (classify_response t is_active r now).0 xs c
      (process_settles t is_active r now v h),
)

bytes_leb_antisym : (a b : List ℕ) → bytes_leb a b ≡ true → bytes_leb b a ≡ true → a ≡ b
bytes_leb_antisym [] [] h g = refl
bytes_leb_antisym [] (y ∷ b) h g = absurd (ground (arith, g))
bytes_leb_antisym (x ∷ a) [] h g = absurd (ground (arith, h))
bytes_leb_antisym (x ∷ a) (y ∷ b) h g = ground (arith, h, g, bytes_leb_antisym a b)

bytes_leb_total : (a b : List ℕ) → bytes_leb a b ≡ false → bytes_leb b a ≡ true
bytes_leb_total [] b h = absurd (ground (arith, h))
bytes_leb_total (x ∷ a) [] h = refl
bytes_leb_total (x ∷ a) (y ∷ b) h = ground (arith, h, bytes_leb_total a b)

-- The identifier of a dialog is the same for both directions of its messages.
pub normalize_dialog_id_comm :
    (call_id from_tag to_tag : List ℕ)
    → normalize_dialog_id call_id from_tag to_tag ≡ normalize_dialog_id call_id to_tag from_tag
unfolding normalize_dialog_id
normalize_dialog_id_comm call_id from_tag to_tag =
    ground (arith, bytes_leb_antisym from_tag to_tag, bytes_leb_total from_tag to_tag)
