-- ===== src/Tracker/Owned/Refines.antt =====
-- What an endpoint resolves to after any calls, from the calls alone.
use sip_exporter.Prelude.{
  ℕ, ◌≡◌, refl, sym, subst, String, List, [], ◌∷◌, Option, none, some, arith, string_key,
  Option-cases, inl, inr,
}
use sip_exporter.Prelude.Assoc.{lookup}
use sip_exporter.Stream.{FloatOps}
use sip_exporter.Tracker.{Endpoint, endpoint_key, MediaLabels, RtcpMediaEntry, Tracker, new_tracker}
use sip_exporter.Tracker.Media.{
  no_labels, no_rtcp, rtp_owners, rtcp_owners_of, register, register_rtcp, unregister, replace,
  remove_call_media, displace,
}
use sip_exporter.Tracker.Rtp.{lookup_endpoint}
use sip_exporter.Tracker.Calls.{
  Call, registers, registers_rtcp, unregisters, replaces, learns, observes, cleans, records,
  snapshots, step, steps,
}
use sip_exporter.Tracker.Owned.Held.{
  Held, Agrees, nobody, give_up, hear, own-hear, disown_call-Agrees,
}
use sip_exporter.Tracker.Owned.Steps.{
  call_of, rtcp_call_of, SameOwners, BothOwned, step-BothOwned, new_tracker-BothOwned,
  displace-SameOwners, drop_streams-SameOwners, learn_source_alias-SameOwners,
  record_rtcp-SameOwners, cleanup-SameOwners, observe_packet-SameOwners, snapshot-SameOwners,
}

-- The history of one endpoint as an RTP and as an RTCP endpoint.
pub record History : Type 0 where
  pub rtp : Held MediaLabels
  pub rtcp : Held RtcpMediaEntry

abbrev pub give_up_both : String → History → History
give_up_both c h = record { rtp = give_up c h.rtp; rtcp = give_up c h.rtcp }

-- What one call does to the history: only registrations of this endpoint, and the end or the
-- replacement of a dialog, change it.
abbrev pub note : Endpoint → History → Call → History
note k h (registers key l) = record { rtp = hear k key l.call_id l h.rtp; rtcp = h.rtcp }
note k h (registers_rtcp key rtp c) = record {
  rtp = h.rtp;
  rtcp = hear k key c (record { call_id = c; rtp_endpoint = rtp }) h.rtcp;
}
note k h (unregisters c) = give_up_both c h
note k h (replaces c) = give_up_both c h
note k h (learns c m s) = h
note k h (observes src dst header arrival) = h
note k h (cleans now) = h
note k h (records now ssrc n src dst) = h
note k h snapshots = h

abbrev pub notes : Endpoint → History → List Call → History
notes k h [] = h
notes k h (x ∷ xs) = notes k (note k h x) xs

abbrev pub no_history : History
no_history = record { rtp = nobody; rtcp = nobody }

-- The history after the calls, from nothing.
abbrev pub history : Endpoint → List Call → History
history k xs = notes k no_history xs

module _ {F : Type 0} (k : Endpoint) where
  record Refines (t : Tracker F) (h : History) : Type 0 where
    rtp_agrees : Agrees k (rtp_owners t) h.rtp
    rtcp_agrees : Agrees k (rtcp_owners_of t) h.rtcp

  SameOwners-Refines : (t u : Tracker F) (h : History) → SameOwners t u → Refines t h → Refines u h
  SameOwners-Refines t u h same r = record {
    rtp_agrees = subst (λ o. Agrees k o h.rtp) (sym same.same_rtp) r.rtp_agrees;
    rtcp_agrees = subst (λ o. Agrees k o h.rtcp) (sym same.same_rtcp) r.rtcp_agrees;
  }

  register-Refines :
      (t : Tracker F) (key : Endpoint) (l : MediaLabels) (h : History)
      → Refines t h
      → Refines (register t key l).0 (note k h (registers key l))
  unfolding register
  register-Refines t key l h r = elim (Option-cases (lookup key t.media_aliases)) [
    | inl free ↦
        rw (free, register)
          (record {
            rtp_agrees = own-hear l.call_id key k l (rtp_owners t) h.rtp r.rtp_agrees;
            rtcp_agrees = r.rtcp_agrees;
          })
    | inr (a, occupied) ↦
        let u = displace key a t in
        let w = SameOwners-Refines t u h (displace-SameOwners key a t) r in
        rw (occupied, register)
          (record {
            rtp_agrees = own-hear l.call_id key k l (rtp_owners u) h.rtp w.rtp_agrees;
            rtcp_agrees = w.rtcp_agrees;
          })
  ]

  remove_call_media-Refines :
      (t : Tracker F) (c : String) (h : History)
      → BothOwned t
      → Refines t h
      → Refines (remove_call_media t c) (give_up_both c h)
  unfolding remove_call_media
  remove_call_media-Refines t c h v r =
      SameOwners-Refines _ _ (give_up_both c h) (drop_streams-SameOwners _ _ _) (record {
        rtp_agrees =
            disown_call-Agrees call_of no_labels c (rtp_owners t) v.rtp_owned k h.rtp r.rtp_agrees;
        rtcp_agrees =
            disown_call-Agrees rtcp_call_of no_rtcp c (rtcp_owners_of t) v.rtcp_owned k h.rtcp
              r.rtcp_agrees;
      })

  new_tracker-Refines : (ttl : ℕ) → Refines (new_tracker ttl) no_history
  unfolding lookup
  new_tracker-Refines ttl = record {
    rtp_agrees = record {
      same_owners = refl;
      same_labels = λ c. refl;
      same_current = refl;
      once_each = tt;
    };
    rtcp_agrees = record {
      same_owners = refl;
      same_labels = λ c. refl;
      same_current = refl;
      once_each = tt;
    };
  }

module _ {F : Type 0} ⦃fl : FloatOps F⦄ (k : Endpoint) where
  step-Refines :
      (t : Tracker F) (h : History) (x : Call)
      → BothOwned t
      → Refines k t h
      → Refines k (step t x) (note k h x)
  unfolding register_rtcp unregister replace
  step-Refines t h (registers key l) v r = register-Refines k t key l h r
  step-Refines t h (registers_rtcp key rtp c) v r = record {
    rtp_agrees = r.rtp_agrees;
    rtcp_agrees =
        own-hear c key k (record { call_id = c; rtp_endpoint = rtp }) (rtcp_owners_of t) h.rtcp
          r.rtcp_agrees;
  }
  step-Refines t h (unregisters c) v r =
      SameOwners-Refines k (remove_call_media t c) _ (give_up_both c h)
        (record { same_rtp = refl; same_rtcp = refl }) (remove_call_media-Refines k t c h v r)
  step-Refines t h (replaces c) v r = remove_call_media-Refines k t c h v r
  step-Refines t h (learns c m s) v r =
      SameOwners-Refines k t _ h (learn_source_alias-SameOwners t c m s) r
  step-Refines t h (observes src dst header arrival) v r =
      SameOwners-Refines k t _ h (observe_packet-SameOwners t src dst header arrival) r
  step-Refines t h (cleans now) v r = SameOwners-Refines k t _ h (cleanup-SameOwners t now) r
  step-Refines t h (records now ssrc n src dst) v r =
      SameOwners-Refines k t _ h (record_rtcp-SameOwners t now ssrc n src dst) r
  step-Refines t h snapshots v r = SameOwners-Refines k t _ h (snapshot-SameOwners t) r

  steps-Refines :
      (t : Tracker F) (h : History) (xs : List Call)
      → BothOwned t
      → Refines k t h
      → Refines k (steps t xs) (notes k h xs)
  steps-Refines t h [] v r = r
  steps-Refines t h (x ∷ xs) v r =
      steps-Refines (step t x) (note k h x) xs (step-BothOwned t x v) (step-Refines t h x v r)

-- The labels of a holder of the endpoint; without one those of a learned alias.
abbrev pub or_alias : Option MediaLabels → Option MediaLabels → Option MediaLabels
or_alias (some l) alias = some l
or_alias none alias = alias

module _ (F : Type 0) ⦃fl : FloatOps F⦄ (ttl : ℕ) (xs : List Call) (k : Endpoint) where
  reached : Refines {F = F} k (steps (new_tracker ttl) xs) (history k xs)
  reached =
      steps-Refines k (new_tracker ttl) no_history xs (new_tracker-BothOwned ttl)
        (new_tracker-Refines k ttl)

  -- After any calls of a new tracker, what an endpoint resolves to is what its history says, which is
  -- read from the calls alone: a registration gives it the labels of that registration; a dialog
  -- that ends or is replaced changes it only if the dialog had registered the endpoint since it last
  -- gave it up, and then the endpoint falls back to the last labels of the latest to come of the
  -- other dialogs that did so, and to nothing without one. An RTP endpoint that its history leaves
  -- with nothing resolves only where it is a learned alias. The same holds of an RTCP endpoint and
  -- its registrations, without aliases.
  pub steps-history :
      let t : Tracker F = steps (new_tracker ttl) xs in
      (lookup_endpoint t k ≡ or_alias (history k xs).rtp.current (lookup k t.media_aliases))
      × (lookup k t.rtcp_media ≡ (history k xs).rtcp.current)
  unfolding lookup_endpoint
  steps-history =
      (ground (arith, reached.rtp_agrees.same_current), reached.rtcp_agrees.same_current)
