-- ===== src/Tracker/Owned/Steps.antt =====
-- The owners of RTP and RTCP endpoints under the methods of the tracker.
use sip_exporter.Prelude.{
  ℕ, ◌≡◌, refl, sym, ◌∙◌, subst, Bool, String, List, [], ◌∷◌, arith, string_key, Option-cases,
  Bool-cases, inl, inr,
}
use sip_exporter.Prelude.Int.{ℤ}
use sip_exporter.Prelude.Assoc.{lookup, insert}
use sip_exporter.Rtp.{Header, codec_name}
use sip_exporter.Stream.{FloatOps}
use sip_exporter.Tracker.{
  Endpoint, endpoint_key, MediaLabels, RtcpMediaEntry, StreamKey, stream_key, StreamEntry, Tracker,
  new_tracker,
}
use sip_exporter.Tracker.Index.{cleanup, drop_stream, drop_streams}
use sip_exporter.Tracker.Media.{
  no_labels, no_rtcp, rtp_owners, rtcp_owners_of, register, register_rtcp, unregister, replace,
  displace, remove_call_media,
}
use sip_exporter.Tracker.Alias.{learn_source_alias, add_alias}
use sip_exporter.Tracker.Rtp.{
  Match, observe_packet, observe_on, add_stream, new_entry, observe_entry, lookup_labels,
}
use sip_exporter.Tracker.Rtcp.{record_rtcp, snapshot}
use sip_exporter.Tracker.Calls.{
  Call, registers, registers_rtcp, unregisters, replaces, learns, observes, cleans, records,
  snapshots, step, steps,
}
use sip_exporter.Tracker.Owned.{Owned, own-Owned}
use sip_exporter.Tracker.Owned.Gone.{disown_call-Owned}

abbrev pub call_of : MediaLabels → String
call_of l = l.call_id

abbrev pub rtcp_call_of : RtcpMediaEntry → String
rtcp_call_of r = r.call_id

module _ {F : Type 0} where
  -- Both tables of owners are left alone.
  pub record SameOwners (t u : Tracker F) : Type 0 where
    pub same_rtp : rtp_owners u ≡ rtp_owners t
    pub same_rtcp : rtcp_owners_of u ≡ rtcp_owners_of t

  SameOwners-trans : {t u v : Tracker F} → SameOwners t u → SameOwners u v → SameOwners t v
  SameOwners-trans a b = record {
    same_rtp = b.same_rtp ∙ a.same_rtp;
    same_rtcp = b.same_rtcp ∙ a.same_rtcp;
  }

  pub drop_streams-SameOwners :
      (p : StreamKey → StreamEntry F → Bool) (xs : List (StreamKey × StreamEntry F)) (t : Tracker F)
      → SameOwners t (drop_streams p xs t)
  unfolding drop_streams drop_stream
  drop_streams-SameOwners p [] t = record { same_rtp = refl; same_rtcp = refl }
  drop_streams-SameOwners p ((k, e) ∷ xs) t = elim (Bool-cases (p k e)) [
    | inl gone ↦ rw gone (
        SameOwners-trans {u = drop_stream k t} (record { same_rtp = refl; same_rtcp = refl })
          (drop_streams-SameOwners p xs (drop_stream k t)))
    | inr kept ↦ rw kept (drop_streams-SameOwners p xs t)
  ]

  pub record BothOwned (t : Tracker F) : Type 0 where
    pub rtp_owned : Owned call_of (rtp_owners t)
    pub rtcp_owned : Owned rtcp_call_of (rtcp_owners_of t)

  pub SameOwners-BothOwned : (t u : Tracker F) → SameOwners t u → BothOwned t → BothOwned u
  SameOwners-BothOwned t u same v = record {
    rtp_owned = subst (Owned call_of) (sym same.same_rtp) v.rtp_owned;
    rtcp_owned = subst (Owned rtcp_call_of) (sym same.same_rtcp) v.rtcp_owned;
  }

  pub displace-SameOwners :
      (key : Endpoint) (l : MediaLabels) (t : Tracker F) → SameOwners t (displace key l t)
  unfolding displace
  displace-SameOwners key l t =
      SameOwners-trans (record { same_rtp = refl; same_rtcp = refl })
        (drop_streams-SameOwners _ t.streams _)

  register-BothOwned :
      (t : Tracker F) (key : Endpoint) (l : MediaLabels)
      → BothOwned t
      → BothOwned (register t key l).0
  unfolding register
  register-BothOwned t key l v = elim (Option-cases (lookup key t.media_aliases)) [
    | inl free ↦
        rw (free, register)
          (record {
            rtp_owned = own-Owned call_of l.call_id key l (rtp_owners t) refl v.rtp_owned;
            rtcp_owned = v.rtcp_owned;
          })
    | inr (a, occupied) ↦
        let u = displace key a t in
        let w = SameOwners-BothOwned t u (displace-SameOwners key a t) v in
        rw (occupied, register)
          (record {
            rtp_owned = own-Owned call_of l.call_id key l (rtp_owners u) refl w.rtp_owned;
            rtcp_owned = w.rtcp_owned;
          })
  ]

  register_rtcp-BothOwned :
      (t : Tracker F) (key rtp : Endpoint) (c : String)
      → BothOwned t
      → BothOwned (register_rtcp t key rtp c).0
  unfolding register_rtcp
  register_rtcp-BothOwned t key rtp c v = record {
    rtp_owned = v.rtp_owned;
    rtcp_owned = own-Owned rtcp_call_of c key _ (rtcp_owners_of t) refl v.rtcp_owned;
  }

  remove_call_media-BothOwned :
      (t : Tracker F) (c : String) → BothOwned t → BothOwned (remove_call_media t c)
  unfolding remove_call_media
  remove_call_media-BothOwned t c v =
      SameOwners-BothOwned _ _ (drop_streams-SameOwners _ _ _) (record {
        rtp_owned = disown_call-Owned call_of no_labels c (rtp_owners t) v.rtp_owned;
        rtcp_owned = disown_call-Owned rtcp_call_of no_rtcp c (rtcp_owners_of t) v.rtcp_owned;
      })

  unregister-BothOwned : (t : Tracker F) (c : String) → BothOwned t → BothOwned (unregister t c).0
  unfolding unregister
  unregister-BothOwned t c v =
      SameOwners-BothOwned (remove_call_media t c) _ (record { same_rtp = refl; same_rtcp = refl })
        (remove_call_media-BothOwned t c v)

  replace-BothOwned : (t : Tracker F) (c : String) → BothOwned t → BothOwned (replace t c).0
  unfolding replace
  replace-BothOwned t c v = remove_call_media-BothOwned t c v

  pub learn_source_alias-SameOwners :
      (t : Tracker F) (c : String) (m s : Endpoint) → SameOwners t (learn_source_alias t c m s).0
  unfolding learn_source_alias add_alias
  learn_source_alias-SameOwners t c m s = ground arith

  pub record_rtcp-SameOwners :
      (t : Tracker F) (now ssrc : ℕ) (n : ℤ) (src dst : Endpoint)
      → SameOwners t (record_rtcp t now ssrc n src dst).0
  unfolding record_rtcp
  record_rtcp-SameOwners t now ssrc n src dst = ground arith

  pub cleanup-SameOwners : (t : Tracker F) (now : ℕ) → SameOwners t (cleanup t now)
  unfolding cleanup
  cleanup-SameOwners t now = drop_streams-SameOwners _ t.streams t

no_owners-Owned :
    {L : Type 0} (name : L → String)
    → Owned name (record { resolved = []; owners = []; per_call = [] })
unfolding lookup
no_owners-Owned name = record {
  counted = λ k c. refl;
  resolves = λ k. refl;
  said = λ k l h. absurd (ground arith);
  named = λ k c l h. absurd (ground arith);
  keyed = λ c. tt;
}

pub new_tracker-BothOwned : {F : Type 0} (ttl : ℕ) → BothOwned {F = F} (new_tracker ttl)
new_tracker-BothOwned ttl = record {
  rtp_owned = no_owners-Owned call_of;
  rtcp_owned = no_owners-Owned rtcp_call_of;
}

module _ {F : Type 0} ⦃fl : FloatOps F⦄ where
  observe_on-SameOwners :
      (t : Tracker F) (key : StreamKey) (entry : StreamEntry F) (m : Match) (src : Endpoint)
      (h : Header) (arrival : ℕ) (codec : String)
      → SameOwners t (observe_on t key entry m src h arrival codec).0
  unfolding observe_on
  observe_on-SameOwners t key entry m src h arrival codec =
      let after = observe_entry entry h arrival codec in
      let u : Tracker F = record t { streams = insert key after t.streams } in
      let learned = learn_source_alias-SameOwners u m.labels.call_id m.endpoint src in
      record {
        same_rtp = ground (arith, learned.same_rtp);
        same_rtcp = ground (arith, learned.same_rtcp);
      }

  add_stream-SameOwners :
      (t : Tracker F) (key : StreamKey) (entry : StreamEntry F)
      → SameOwners t (add_stream t key entry)
  unfolding add_stream
  add_stream-SameOwners t key entry = record { same_rtp = refl; same_rtcp = refl }

  pub observe_packet-SameOwners :
      (t : Tracker F) (src dst : Endpoint) (h : Header) (arrival : ℕ)
      → SameOwners t (observe_packet t src dst h arrival).0
  unfolding observe_packet
  observe_packet-SameOwners t src dst h arrival = elim (Option-cases (lookup_labels t src dst)) [
    | inl unmatched ↦ rw (unmatched, observe_packet) (record { same_rtp = refl; same_rtcp = refl })
    | inr (m, matched) ↦
        let codec = codec_name h.payload_type m.labels.sdp_codecs in
        let key : StreamKey = record { endpoint = m.endpoint; ssrc = h.ssrc } in
        elim (Option-cases (lookup key t.streams)) [
          | inl absent ↦
              let entry = new_entry h codec m.labels arrival in
              rw (matched, absent, observe_packet)
                (SameOwners-trans (add_stream-SameOwners t key entry)
                  (observe_on-SameOwners (add_stream t key entry) key entry m src h arrival codec))
          | inr (entry, present) ↦
              rw (matched, present, observe_packet)
                (observe_on-SameOwners t key entry m src h arrival codec)
        ]
  ]

  pub snapshot-SameOwners : (t : Tracker F) → SameOwners t (snapshot t).0
  unfolding snapshot
  snapshot-SameOwners t = record { same_rtp = refl; same_rtcp = refl }

  pub step-BothOwned : (t : Tracker F) (x : Call) → BothOwned t → BothOwned (step t x)
  step-BothOwned t (registers key l) v = register-BothOwned t key l v
  step-BothOwned t (registers_rtcp key rtp c) v = register_rtcp-BothOwned t key rtp c v
  step-BothOwned t (unregisters c) v = unregister-BothOwned t c v
  step-BothOwned t (replaces c) v = replace-BothOwned t c v
  step-BothOwned t (learns c m s) v =
      SameOwners-BothOwned t _ (learn_source_alias-SameOwners t c m s) v
  step-BothOwned t (observes src dst h arrival) v =
      SameOwners-BothOwned t _ (observe_packet-SameOwners t src dst h arrival) v
  step-BothOwned t (cleans now) v = SameOwners-BothOwned t _ (cleanup-SameOwners t now) v
  step-BothOwned t (records now ssrc n src dst) v =
      SameOwners-BothOwned t _ (record_rtcp-SameOwners t now ssrc n src dst) v
  step-BothOwned t snapshots v = SameOwners-BothOwned t _ (snapshot-SameOwners t) v

  pub steps-BothOwned : (t : Tracker F) (xs : List Call) → BothOwned t → BothOwned (steps t xs)
  steps-BothOwned t [] v = v
  steps-BothOwned t (x ∷ xs) v = steps-BothOwned (step t x) xs (step-BothOwned t x v)
