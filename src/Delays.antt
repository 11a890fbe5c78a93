-- ===== src/Delays.antt =====
-- internal/exporter/exporter.go: the tables of requests that wait for their response, by which the
-- delays are measured. Each call runs under the mutex of its table, and `now` is the clock that it
-- reads; a delay is in nanoseconds. A metric is an entry of the list that a call returns.
pub mod Waiting
pub mod Calls
pub mod Once
use sip_exporter.Prelude.{
  ℕ, ◌+◌, ◌*◌, ◌^◌, Bool, true, false, not, ◌&&◌, ◌||◌, List, [], ◌∷◌, ◌++◌, Option, none, some,
  is_some, ◌==◌, if◌then◌else◌, leb, ltb, Key,
}
use sip_exporter.Prelude.Int.{ℤ, sub_ℕ}
use sip_exporter.Prelude.Assoc.{lookup, insert, delete, retain}
use sip_exporter.Text.{Bytes}
use sip_exporter.Invites.{bytes_key}

abbrev pub default_ttl : ℕ
default_ttl = 60 * 10 ^ 9

-- The labels that an entry keeps for the metric of its response.
pub record Labels : Type 0 where
  pub carrier : Bytes
  pub ua_type : Bytes
  pub source_country : Bytes

pub record RegisterEntry : Type 0 where
  pub timestamp : ℕ
  pub labels : Labels
  pub src_ip : Bytes

pub record InviteEntry : Type 0 where
  pub timestamp : ℕ
  pub labels : Labels
  pub direction : Bytes
  pub ttr_measured : Bool
  pub pdd_measured : Bool

-- `optionsEntry` and `byeEntry`
pub record RequestEntry : Type 0 where
  pub timestamp : ℕ
  pub labels : Labels

pub record Delays : Type 0 where
  pub register_tracker : List (Bytes × RegisterEntry)
  pub invite_tracker : List (Bytes × InviteEntry)
  pub options_tracker : List (Bytes × RequestEntry)
  pub bye_tracker : List (Bytes × RequestEntry)

-- What is measured: the delays to the first provisional response and to ringing, those of OPTIONS and
-- BYE, and those of a registration that is accepted or redirected.
pub data Kind : Type 0 where
  ttr pdd ord pbd rrd lrd : Kind

pub record Measure : Type 0 where
  pub kind : Kind
  pub call_id : Bytes
  pub labels : Labels
  pub direction : Bytes
  pub delay : ℤ

-- `time.Since(start)`
abbrev pub since : ℕ → ℕ → ℤ
since now start = sub_ℕ now start

abbrev pub is_fresh : ℕ → ℕ → Bool
is_fresh now timestamp = not (ltb (timestamp + default_ttl) now)

abbrev pub new_invite : Labels → Bytes → ℕ → InviteEntry
new_invite labels direction now = record {
  timestamp = now;
  labels = labels;
  direction = direction;
  ttr_measured = false;
  pdd_measured = false;
}

unfoldable pub store_invite_time : Delays → Bytes → Labels → Bytes → ℕ → Delays
store_invite_time t call_id labels direction now = record t {
  invite_tracker = insert call_id (new_invite labels direction now) t.invite_tracker;
}

-- The labels and the direction that a response is given, in place of those of its own packet.
abbrev pub invite_carrier : Labels × Bytes → Option InviteEntry → Labels × Bytes
invite_carrier own none = own
invite_carrier own (some e) = (e.labels, e.direction)

abbrev pub get_invite_carrier : Delays → Bytes → Labels × Bytes → Labels × Bytes
get_invite_carrier t call_id own = invite_carrier own (lookup call_id t.invite_tracker)

abbrev pub register_carrier : Labels × Bytes → Option RegisterEntry → Labels × Bytes
register_carrier own none = own
register_carrier own (some e) = (e.labels, e.src_ip)

abbrev pub get_register_carrier : Delays → Bytes → Labels × Bytes → Labels × Bytes
get_register_carrier t call_id own = register_carrier own (lookup call_id t.register_tracker)

unfoldable pub remove_invite_time : Delays → Bytes → Delays
remove_invite_time t call_id = record t { invite_tracker = delete call_id t.invite_tracker }

abbrev pub has_invite_tracker : Delays → Bytes → Bool
has_invite_tracker t call_id = is_some (lookup call_id t.invite_tracker)

abbrev pub ttr_of : Option InviteEntry → Bool
ttr_of none = false
ttr_of (some e) = e.ttr_measured

abbrev pub pdd_of : Option InviteEntry → Bool
pdd_of none = false
pdd_of (some e) = e.pdd_measured

abbrev pub is_ttr_measured : Delays → Bytes → Bool
is_ttr_measured t call_id = ttr_of (lookup call_id t.invite_tracker)

abbrev pub is_pdd_measured : Delays → Bytes → Bool
is_pdd_measured t call_id = pdd_of (lookup call_id t.invite_tracker)

abbrev pub mark_entry : (InviteEntry → InviteEntry) → Delays → Bytes → Option InviteEntry → Delays
mark_entry mark t call_id none = t
mark_entry mark t call_id (some e) = record t {
  invite_tracker = insert call_id (mark e) t.invite_tracker;
}

unfoldable pub mark_ttr_measured : Delays → Bytes → Delays
mark_ttr_measured t call_id =
    mark_entry (λ e. record e { ttr_measured = true }) t call_id (lookup call_id t.invite_tracker)

unfoldable pub mark_pdd_measured : Delays → Bytes → Delays
mark_pdd_measured t call_id =
    mark_entry (λ e. record e { pdd_measured = true }) t call_id (lookup call_id t.invite_tracker)

-- `len(status) >= 3 && status[1] == '8' && status[2] == '0'`
abbrev pub is_ringing : Bytes → Bool
is_ringing (a ∷ b ∷ c ∷ status) = b == b'8' && c == b'0'
is_ringing status = false

unfoldable pub measure_ttr : Delays → Bytes → InviteEntry → ℤ → Delays × List Measure
measure_ttr t call_id e delay = if is_ttr_measured t call_id then (t, []) else (
  mark_ttr_measured t call_id,
  record {
    kind = ttr;
    call_id = call_id;
    labels = e.labels;
    direction = e.direction;
    delay = delay;
  }
      ∷ [],
)

unfoldable pub measure_pdd : Delays → Bytes → InviteEntry → ℤ → Bytes → Delays × List Measure
measure_pdd t call_id e delay status =
    if not (is_pdd_measured t call_id) && is_ringing status
    then (
      mark_pdd_measured t call_id,
      record {
        kind = pdd;
        call_id = call_id;
        labels = e.labels;
        direction = e.direction;
        delay = delay;
      }
          ∷ [],
    )
    else (t, [])

-- `handleProvisionalResponse`
unfoldable pub handle_provisional_response : Delays → Bytes → Bytes → ℕ → Delays × List Measure
handle_provisional_response t call_id status now = elim (lookup call_id t.invite_tracker) [
  | none ↦ (t, [])
  | some e ↦
      let delay = since now e.timestamp in
      let (t1, first) = measure_ttr t call_id e delay in
      let (t2, second) = measure_pdd t1 call_id e delay status in (t2, first ++ second)
]

-- The table part of `handleInviteResponse`, by the first digit of the status.
unfoldable pub handle_invite_response : Delays → Bytes → Bytes → ℕ → Delays × List Measure
handle_invite_response t call_id [] now = (t, [])
handle_invite_response t call_id (c ∷ status) now =
    if c == b'1'
    then handle_provisional_response t call_id (c ∷ status) now
    else (remove_invite_time t call_id, [])

unfoldable pub store_options_time : Delays → Bytes → Labels → ℕ → Delays
store_options_time t call_id labels now = record t {
  options_tracker = insert call_id (record { timestamp = now; labels = labels }) t.options_tracker;
}

abbrev pub measured : Kind → Bytes → Bytes → ℕ → Option RequestEntry → List Measure
measured kind call_id direction now none = []
measured kind call_id direction now (some e) =
    record {
      kind = kind;
      call_id = call_id;
      labels = e.labels;
      direction = direction;
      delay = since now e.timestamp;
    }
    ∷ []

unfoldable pub measure_options_time : Delays → Bytes → Bytes → ℕ → Delays × List Measure
measure_options_time t call_id direction now = (
  record t { options_tracker = delete call_id t.options_tracker },
  measured ord call_id direction now (lookup call_id t.options_tracker),
)

unfoldable pub store_bye_time : Delays → Bytes → Labels → ℕ → Delays
store_bye_time t call_id labels now = record t {
  bye_tracker = insert call_id (record { timestamp = now; labels = labels }) t.bye_tracker;
}

unfoldable pub measure_bye_time : Delays → Bytes → Bytes → ℕ → Delays × List Measure
measure_bye_time t call_id direction now = (
  record t { bye_tracker = delete call_id t.bye_tracker },
  measured pbd call_id direction now (lookup call_id t.bye_tracker),
)

unfoldable pub store_register_time : Delays → Bytes → Labels → Bytes → ℕ → Delays
store_register_time t call_id labels src_ip now = record t {
  register_tracker =
      insert call_id (record { timestamp = now; labels = labels; src_ip = src_ip })
        t.register_tracker;
}

unfoldable pub remove_register_time : Delays → Bytes → Delays
remove_register_time t call_id = record t { register_tracker = delete call_id t.register_tracker }

-- The labels and the direction come from the caller.
abbrev pub register_measured :
    Kind → Bytes → Labels × Bytes → ℕ → Option RegisterEntry → List Measure
register_measured kind call_id own now none = []
register_measured kind call_id own now (some e) =
    record {
      kind = kind;
      call_id = call_id;
      labels = own.0;
      direction = own.1;
      delay = since now e.timestamp;
    }
    ∷ []

-- The last part of `handleRegister200OK`.
unfoldable pub handle_register_200 : Delays → Bytes → Labels × Bytes → ℕ → Delays × List Measure
unfolding remove_register_time
handle_register_200 t call_id own now = elim (lookup call_id t.register_tracker) [
  | none ↦ (t, [])
  | some e ↦ (remove_register_time t call_id, register_measured rrd call_id own now (some e))
]

-- The last part of `handleRegisterNon200Response`.
unfoldable pub handle_register_non_200 :
    Delays → Bytes → Labels × Bytes → Bytes → ℕ → Delays × List Measure
unfolding remove_register_time
handle_register_non_200 t call_id own [] now = (remove_register_time t call_id, [])
handle_register_non_200 t call_id own (c ∷ status) now =
    if c == b'3'
    then elim (lookup call_id t.register_tracker) [
      | none ↦ (t, [])
      | some e ↦ (remove_register_time t call_id, register_measured lrd call_id own now (some e))
    ]
    else (remove_register_time t call_id, [])

-- The entries of one table that `cleanupExpired` leaves, by the time that `created` gives.
unfoldable pub cleanup_expired : {A : Type 0} → (A → ℕ) → ℕ → List (Bytes × A) → List (Bytes × A)
cleanup_expired created now m = retain (λ k e. is_fresh now (created e)) m

unfoldable pub cleanup_register_tracker : Delays → ℕ → Delays
cleanup_register_tracker t now = record t {
  register_tracker = cleanup_expired (λ e. e.timestamp) now t.register_tracker;
}

unfoldable pub cleanup_invite_tracker : Delays → ℕ → Delays
cleanup_invite_tracker t now = record t {
  invite_tracker = cleanup_expired (λ e. e.timestamp) now t.invite_tracker;
}

unfoldable pub cleanup_options_tracker : Delays → ℕ → Delays
cleanup_options_tracker t now = record t {
  options_tracker = cleanup_expired (λ e. e.timestamp) now t.options_tracker;
}

unfoldable pub cleanup_bye_tracker : Delays → ℕ → Delays
cleanup_bye_tracker t now = record t {
  bye_tracker = cleanup_expired (λ e. e.timestamp) now t.bye_tracker;
}

pub data DelayCall : Type 0 where
  stores_invite : Bytes → Labels → Bytes → ℕ → DelayCall
  answers_invite : Bytes → Bytes → ℕ → DelayCall
  cancels : Bytes → DelayCall
  stores_options : Bytes → Labels → ℕ → DelayCall
  answers_options : Bytes → Bytes → ℕ → DelayCall
  stores_bye : Bytes → Labels → ℕ → DelayCall
  answers_bye : Bytes → Bytes → ℕ → DelayCall
  stores_register : Bytes → Labels → Bytes → ℕ → DelayCall
  accepts_register : Bytes → Labels × Bytes → ℕ → DelayCall
  refuses_register : Bytes → Labels × Bytes → Bytes → ℕ → DelayCall
  cleans_registers : ℕ → DelayCall
  cleans_invites : ℕ → DelayCall
  cleans_options : ℕ → DelayCall
  cleans_byes : ℕ → DelayCall

abbrev pub delay_step : Delays → DelayCall → Delays × List Measure
delay_step t (stores_invite call_id labels direction now) =
    (store_invite_time t call_id labels direction now, [])
delay_step t (answers_invite call_id status now) = handle_invite_response t call_id status now
delay_step t (cancels call_id) = (remove_invite_time t call_id, [])
delay_step t (stores_options call_id labels now) = (store_options_time t call_id labels now, [])
delay_step t (answers_options call_id direction now) = measure_options_time t call_id direction now
delay_step t (stores_bye call_id labels now) = (store_bye_time t call_id labels now, [])
delay_step t (answers_bye call_id direction now) = measure_bye_time t call_id direction now
delay_step t (stores_register call_id labels src_ip now) =
    (store_register_time t call_id labels src_ip now, [])
delay_step t (accepts_register call_id own now) = handle_register_200 t call_id own now
delay_step t (refuses_register call_id own status now) =
    handle_register_non_200 t call_id own status now
delay_step t (cleans_registers now) = (cleanup_register_tracker t now, [])
delay_step t (cleans_invites now) = (cleanup_invite_tracker t now, [])
delay_step t (cleans_options now) = (cleanup_options_tracker t now, [])
delay_step t (cleans_byes now) = (cleanup_bye_tracker t now, [])

abbrev pub delay_steps : Delays → List DelayCall → Delays × List Measure
delay_steps t [] = (t, [])
delay_steps t (c ∷ cs) =
    let (t1, reports) = delay_step t c in
    let (t2, more) = delay_steps t1 cs in (t2, reports ++ more)

abbrev pub no_delays : Delays
no_delays = record {
  register_tracker = [];
  invite_tracker = [];
  options_tracker = [];
  bye_tracker = [];
}
