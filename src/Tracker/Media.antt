-- ===== src/Tracker/Media.antt =====
-- Media endpoints and their owners: `Register`, `RegisterRTCP`, `Unregister`, `Replace`.
use sip_exporter.Prelude.{
  Bool, true, false, not, ◌&&◌, String, List, [], ◌∷◌, ◌++◌, map, Option, none, some, some_or,
  is_some, ite, ◌==◌, leb, ltb, if◌then◌else◌, length, string_key, String-discrete,
}
use sip_exporter.Prelude.Assoc.{lookup, insert, delete, lookup_list}
use sip_exporter.Tracker.{
  Endpoint, Endpoint-discrete, endpoint_key, zero_ipv4, MediaLabels, RtcpMediaEntry, Tracker,
}
use sip_exporter.Tracker.Index.{drop_streams}

-- The zero value of a missing key.
abbrev pub no_labels : MediaLabels
no_labels = record {
  carrier = "";
  ua_type = "";
  source_country = "";
  direction = "";
  call_id = "";
  sdp_codecs = [];
  clock_rates = [];
}

abbrev pub no_rtcp : RtcpMediaEntry
no_rtcp = record {
  call_id = "";
  rtp_endpoint = record { fallback_ip = ""; ipv4 = zero_ipv4; port = 0; is_ipv4 = false };
}

unfoldable pub remove_owner : List String → String → List String
remove_owner [] call_id = []
remove_owner (owner ∷ owners) call_id =
    ite (String-discrete owner call_id) owners (owner ∷ remove_owner owners call_id)

-- `owners[len(owners)-1]` where there is one.
abbrev pub last_owner : String → List String → String
last_owner first [] = first
last_owner first (o ∷ owners) = last_owner o owners

-- The peer that `Register` forgets: the first that the loop meets with this alias.
unfoldable pub drop_alias : Endpoint → List (Endpoint × Endpoint) → List (Endpoint × Endpoint)
drop_alias key [] = []
drop_alias key ((peer, a) ∷ aliases) =
    ite (Endpoint-discrete a key) aliases ((peer, a) ∷ drop_alias key aliases)

-- `m[c]` is written back, or deleted where it is empty.
abbrev pub put_or_delete :
    {A : Type 0} → String → List A → List (String × List A) → List (String × List A)
put_or_delete c xs m = if length xs == 0 then delete c m else insert c xs m

-- A registration for one table: who owns the endpoint, what each owner said, and what it resolves to.
pub record Owners (L : Type 0) : Type 0 where
  pub resolved : List (Endpoint × L)
  pub owners : List (Endpoint × List String)
  pub per_call : List (String × List (Endpoint × L))

module _ {L : Type 0} where
  abbrev pub is_owned : String → Endpoint → Owners L → Bool
  is_owned c k o = is_some (lookup k (lookup_list c o.per_call))

  unfoldable pub own : String → Endpoint → L → Owners L → Owners L
  own c k l o = record {
    per_call = insert c (insert k l (lookup_list c o.per_call)) o.per_call;
    owners =
        if is_owned c k o then o.owners else insert k (lookup_list k o.owners ++ (c ∷ [])) o.owners;
    resolved = insert k l o.resolved;
  }

  -- The owners that are left of an endpoint: none, or the last of them is resolved to.
  unfoldable pub leave_owners : L → Endpoint → List String → Owners L → Owners L
  leave_owners blank k [] o = record o {
    owners = delete k o.owners;
    resolved = delete k o.resolved;
  }
  leave_owners blank k (first ∷ rest) o = record o {
    owners = insert k (first ∷ rest) o.owners;
    resolved =
        insert k (some_or (lookup k (lookup_list (last_owner first rest) o.per_call)) blank)
          o.resolved;
  }

  -- One round of the loop over the endpoints of a call that goes.
  unfoldable pub disown : L → String → Endpoint → Owners L → Owners L
  unfolding remove_owner leave_owners
  disown blank c k o = leave_owners blank k (remove_owner (lookup_list k o.owners) c) o

  unfoldable pub disown_all : L → String → List (Endpoint × L) → Owners L → Owners L
  disown_all blank c [] o = o
  disown_all blank c ((k, l) ∷ rest) o = disown_all blank c rest (disown blank c k o)

  -- The loop, and `delete(perCall, callID)`.
  unfoldable pub disown_call : L → String → Owners L → Owners L
  unfolding disown_all disown
  disown_call blank c o =
      let left = disown_all blank c (lookup_list c o.per_call) o in
      record left { per_call = delete c left.per_call }

-- The loop over `t.sourceAliases[callID]` that deletes from `t.mediaAliases`.
abbrev pub delete_aliases :
    List (Endpoint × Endpoint) → List (Endpoint × MediaLabels) → List (Endpoint × MediaLabels)
delete_aliases [] m = m
delete_aliases ((peer, a) ∷ aliases) m = delete_aliases aliases (delete a m)

-- The appends to `deleted` in the three loops of `removeCallMedia`: over the endpoints of the media of
-- the call, over its source aliases, and over its RTCP endpoints.
unfoldable pub deleted_endpoints :
    {L : Type 0} → List Endpoint → List (Endpoint × L) → List Endpoint
deleted_endpoints deleted [] = deleted
deleted_endpoints deleted ((k, l) ∷ rest) = deleted_endpoints (deleted ++ (k ∷ [])) rest

unfoldable pub deleted_aliases : List Endpoint → List (Endpoint × Endpoint) → List Endpoint
deleted_aliases deleted [] = deleted
deleted_aliases deleted ((peer, a) ∷ rest) = deleted_aliases (deleted ++ (a ∷ [])) rest

-- `RTPDialogResult`
pub record RtpDialogResult : Type 0 where
  pub media_expected : Bool
  pub rtp_observed : Bool
  pub one_way : Bool

module _ {F : Type 0} where
  abbrev pub rtp_owners : Tracker F → Owners MediaLabels
  rtp_owners t = record { resolved = t.media; owners = t.media_owners; per_call = t.call_media }

  abbrev pub put_rtp_owners : Tracker F → Owners MediaLabels → Tracker F
  put_rtp_owners t o = record t {
    media = o.resolved;
    media_owners = o.owners;
    call_media = o.per_call;
  }

  abbrev pub rtcp_owners_of : Tracker F → Owners RtcpMediaEntry
  rtcp_owners_of t = record {
    resolved = t.rtcp_media;
    owners = t.rtcp_owners;
    per_call = t.call_rtcp;
  }

  abbrev pub put_rtcp_owners : Tracker F → Owners RtcpMediaEntry → Tracker F
  put_rtcp_owners t o = record t {
    rtcp_media = o.resolved;
    rtcp_owners = o.owners;
    call_rtcp = o.per_call;
  }

  -- What `Register` does where a learned alias occupies the endpoint.
  unfoldable pub displace : Endpoint → MediaLabels → Tracker F → Tracker F
  unfolding drop_alias
  displace key alias_labels t =
      let c = alias_labels.call_id in
      drop_streams
        (λ stream e.
          ite (Endpoint-discrete stream.endpoint key)
            (ite (String-discrete e.labels.call_id c) true false) false)
        t.streams
        (record t {
          source_aliases =
              put_or_delete c (drop_alias key (lookup_list c t.source_aliases)) t.source_aliases;
          media_aliases = delete key t.media_aliases;
        })

  -- `Register`: whether the endpoint was added, and the owner of a displaced alias.
  unfoldable pub register :
      Tracker F → Endpoint → MediaLabels → Tracker F × Bool × Option (Endpoint × String)
  unfolding displace own
  register t key labels =
      let occupied = lookup key t.media_aliases in
      let u = elim occupied as (λ o. Tracker F) [ none ↦ t | some l ↦ displace key l t ] in
      let owned = is_owned labels.call_id key (rtp_owners u) in
      let order = lookup_list labels.call_id u.call_media_order in
      (
        record (put_rtp_owners u (own labels.call_id key labels (rtp_owners u))) {
          call_media_order =
              if owned
              then u.call_media_order
              else insert labels.call_id (order ++ (key ∷ [])) u.call_media_order;
        },
        not owned,
        elim occupied as (λ o. Option (Endpoint × String)) [
          | none ↦ none
          | some l ↦ some (key, l.call_id)
        ],
      )

  -- `RegisterRTCP`
  unfoldable pub register_rtcp : Tracker F → Endpoint → Endpoint → String → Tracker F × Bool
  unfolding own
  register_rtcp t key rtp_endpoint call_id = (
    put_rtcp_owners t (
        own call_id key (record { call_id = call_id; rtp_endpoint = rtp_endpoint })
          (rtcp_owners_of t)),
    not (is_owned call_id key (rtcp_owners_of t)),
  )

  -- `OwnedEndpoints`
  unfoldable pub owned_endpoints : Tracker F → String → List Endpoint
  owned_endpoints t c =
      map (λ p. p.0) (lookup_list c t.call_media)
      ++ (map (λ p. p.1) (lookup_list c t.source_aliases)
          ++ map (λ p. p.0) (lookup_list c t.call_rtcp))

  -- `removeCallMedia`
  unfoldable pub remove_call_media : Tracker F → String → Tracker F
  unfolding disown_call
  remove_call_media t c =
      let u = put_rtp_owners t (disown_call no_labels c (rtp_owners t)) in
      let v = record u {
        call_media_order = delete c u.call_media_order;
        media_aliases = delete_aliases (lookup_list c u.source_aliases) u.media_aliases;
        source_aliases = delete c u.source_aliases;
      } in
      let w = put_rtcp_owners v (disown_call no_rtcp c (rtcp_owners_of v)) in
      let x = record w { call_rtp = delete c w.call_rtp } in
      drop_streams (λ key e. ite (String-discrete e.labels.call_id c) true false) x.streams x

  -- What `removeCallMedia` returns. Its loops change none of the tables that they go over.
  unfoldable pub deleted_media : Tracker F → String → List Endpoint
  unfolding deleted_endpoints deleted_aliases
  deleted_media t c =
      let media = deleted_endpoints [] (lookup_list c t.call_media) in
      let aliases = deleted_aliases media (lookup_list c t.source_aliases) in
      deleted_endpoints aliases (lookup_list c t.call_rtcp)

  -- `Unregister`: the summary, and the endpoints that were given up.
  unfoldable pub unregister : Tracker F → String → Tracker F × RtpDialogResult × List Endpoint
  unfolding remove_call_media deleted_media
  unregister t c =
      let media_count = length (lookup_list c t.call_media) in
      let rtp_endpoint_count = length (lookup_list c t.call_rtp) in
      let u = remove_call_media t c in
      (
        record u { dialog_rtp_observed = delete c u.dialog_rtp_observed },
        record {
          media_expected = ltb 0 media_count;
          rtp_observed = some_or (lookup c t.dialog_rtp_observed) false;
          one_way = leb 2 media_count && rtp_endpoint_count == 1;
        },
        deleted_media t c,
      )

  -- `Replace`
  unfoldable pub replace : Tracker F → String → Tracker F × List Endpoint
  unfolding remove_call_media deleted_media
  replace t c = (remove_call_media t c, deleted_media t c)
