-- ===== src/Tracker/Release.antt =====
-- Dialogs that give up their media.
use mathlib.Core.List.{append_assoc, append-nil}
use sip_exporter.Prelude.{
  ◌++◌, map, sym, ◌≡◌, ◌≢◌, ◌∙◌, ap, refl, Bool, false, String, List, [], ◌∷◌, some_or, ite, arith,
  Bool-cases, inl, inr, String-discrete, string_key,
}
use sip_exporter.Prelude.Assoc.{lookup, delete, lookup_list, lookup-delete_self, lookup_list-delete}
use sip_exporter.Tracker.{Endpoint, StreamKey, StreamEntry, Tracker}
use sip_exporter.Tracker.Index.{drop_stream, drop_streams}
use sip_exporter.Tracker.Media.{
  Owners, disown_call, no_labels, no_rtcp, rtp_owners, rtcp_owners_of, remove_call_media,
  owned_endpoints, deleted_endpoints, deleted_aliases, deleted_media, unregister, replace,
}
use sip_exporter.Tracker.Owned.Gone.{all_per_call}

-- What a dialog has, apart from its owners and its streams.
disown_call_per_call :
    {L : Type 0} (blank : L) (c : String) (o : Owners L)
    → (disown_call blank c o).per_call ≡ delete c o.per_call
unfolding disown_call
disown_call_per_call blank c o = ap (delete c) (all_per_call blank c (lookup_list c o.per_call) o)

listed_same :
    {A : Type 0} (c : String) (m u : List (String × List A)) → u ≡ delete c m → lookup_list c u ≡ []
listed_same c m u h = ground (arith, ap (lookup_list c) h, lookup_list-delete c c m)

listed_other :
    {A : Type 0} (c c' : String) (m u : List (String × List A))
    → u ≡ delete c m
    → c ≢ c'
    → lookup_list c' u ≡ lookup_list c' m
listed_other c c' m u h n = ground (arith, ap (lookup_list c') h, lookup_list-delete c c' m)

deleted_endpoints-append :
    {L : Type 0} (deleted : List Endpoint) (xs : List (Endpoint × L))
    → deleted_endpoints deleted xs ≡ deleted ++ map (λ p. p.0) xs
unfolding deleted_endpoints
deleted_endpoints-append deleted [] = sym (append-nil deleted)
deleted_endpoints-append deleted ((k, l) ∷ xs) =
    deleted_endpoints-append (deleted ++ (k ∷ [])) xs
    ∙ append_assoc deleted (k ∷ []) (map (λ p. p.0) xs)

deleted_aliases-append :
    (deleted : List Endpoint) (xs : List (Endpoint × Endpoint))
    → deleted_aliases deleted xs ≡ deleted ++ map (λ p. p.1) xs
unfolding deleted_aliases
deleted_aliases-append deleted [] = sym (append-nil deleted)
deleted_aliases-append deleted ((peer, a) ∷ xs) =
    deleted_aliases-append (deleted ++ (a ∷ [])) xs
    ∙ append_assoc deleted (a ∷ []) (map (λ p. p.1) xs)

module _ {F : Type 0} where
  -- The loops that remove the media of a call collect what `OwnedEndpoints` lists.
  deleted_media-owned_endpoints :
      (t : Tracker F) (c : String) → deleted_media t c ≡ owned_endpoints t c
  unfolding deleted_media owned_endpoints
  deleted_media-owned_endpoints t c =
      let media = lookup_list c t.call_media in
      let aliases = lookup_list c t.source_aliases in
      let rtcp = lookup_list c t.call_rtcp in
      deleted_endpoints-append (deleted_aliases (deleted_endpoints [] media) aliases) rtcp
      ∙ ap (λ xs. xs ++ map (λ p. p.0) rtcp)
          (deleted_aliases-append (deleted_endpoints [] media) aliases
            ∙ ap (λ xs. xs ++ map (λ p. p.1) aliases) (deleted_endpoints-append [] media))
      ∙ append_assoc (map (λ p. p.0) media) (map (λ p. p.1) aliases) (map (λ p. p.0) rtcp)

  pub record Released (c : String) (t u : Tracker F) : Type 0 where
    pub no_media : u.call_media ≡ delete c t.call_media
    pub no_aliases : u.source_aliases ≡ delete c t.source_aliases
    pub no_rtcp_media : u.call_rtcp ≡ delete c t.call_rtcp
    pub no_rtp : u.call_rtp ≡ delete c t.call_rtp

  drop_streams-Released :
      (p : StreamKey → StreamEntry F → Bool) (xs : List (StreamKey × StreamEntry F)) (c : String)
      (t u : Tracker F)
      → Released c t u
      → Released c t (drop_streams p xs u)
  unfolding drop_streams drop_stream
  drop_streams-Released p [] c t u r = r
  drop_streams-Released p ((k, e) ∷ xs) c t u r = elim (Bool-cases (p k e)) [
    | inl gone ↦
        let smaller : Released c t (drop_stream k u) = record {
          no_media = r.no_media;
          no_aliases = r.no_aliases;
          no_rtcp_media = r.no_rtcp_media;
          no_rtp = r.no_rtp;
        } in
        rw gone (drop_streams-Released p xs c t (drop_stream k u) smaller)
    | inr kept ↦ rw kept (drop_streams-Released p xs c t u r)
  ]

  remove_call_media-Released : (t : Tracker F) (c : String) → Released c t (remove_call_media t c)
  unfolding remove_call_media
  remove_call_media-Released t c = drop_streams-Released _ _ c t _ (record {
    no_media = disown_call_per_call no_labels c (rtp_owners t);
    no_aliases = refl;
    no_rtcp_media = disown_call_per_call no_rtcp c (rtcp_owners_of t);
    no_rtp = refl;
  })

  owned_same : (t u : Tracker F) (c : String) → Released c t u → owned_endpoints u c ≡ []
  unfolding owned_endpoints
  owned_same t u c r =
      rw
        (
          listed_same c t.call_media u.call_media r.no_media,
          listed_same c t.source_aliases u.source_aliases r.no_aliases,
          listed_same c t.call_rtcp u.call_rtcp r.no_rtcp_media,
        )
        refl

  owned_other :
      (t u : Tracker F) (c c' : String)
      → Released c t u
      → c ≢ c'
      → owned_endpoints u c' ≡ owned_endpoints t c'
  unfolding owned_endpoints
  owned_other t u c c' r n =
      rw
        (
          listed_other c c' t.call_media u.call_media r.no_media n,
          listed_other c c' t.source_aliases u.source_aliases r.no_aliases n,
          listed_other c c' t.call_rtcp u.call_rtcp r.no_rtcp_media n,
        )
        refl

  owned_after :
      (t u : Tracker F) (c c' : String)
      → Released c t u
      → owned_endpoints u c' ≡ ite (String-discrete c c') [] (owned_endpoints t c')
  owned_after t u c c' r = elim (String-discrete c c') [
    | yes same ↦ ground (arith, same, owned_same t u c r)
    | no other ↦ ground (arith, owned_other t u c c' r other)
  ]

  unregister-Released : (t : Tracker F) (c : String) → Released c t (unregister t c).0
  unfolding unregister
  unregister-Released t c =
      let r = remove_call_media-Released t c in
      record {
        no_media = r.no_media;
        no_aliases = r.no_aliases;
        no_rtcp_media = r.no_rtcp_media;
        no_rtp = r.no_rtp;
      }

  replace-Released : (t : Tracker F) (c : String) → Released c t (replace t c).0
  unfolding replace
  replace-Released t c = remove_call_media-Released t c

  -- A dialog that is unregistered gives back the endpoints that it owned and owns none after it, and
  -- every other dialog owns the same endpoints as before; the same holds of a dialog whose media
  -- revision is replaced.
  pub owned_endpoints-unregister :
      (t : Tracker F) (c c' : String)
      → ((unregister t c).2 ≡ owned_endpoints t c)
        × ((replace t c).1 ≡ owned_endpoints t c)
        × (owned_endpoints (unregister t c).0 c'
            ≡ ite (String-discrete c c') [] (owned_endpoints t c'))
        × (owned_endpoints (replace t c).0 c'
            ≡ ite (String-discrete c c') [] (owned_endpoints t c'))
  unfolding unregister replace
  owned_endpoints-unregister t c c' = (
    deleted_media-owned_endpoints t c,
    deleted_media-owned_endpoints t c,
    owned_after t (unregister t c).0 c c' (unregister-Released t c),
    owned_after t (replace t c).0 c c' (replace-Released t c),
  )

  drop_streams_observed :
      (p : StreamKey → StreamEntry F → Bool) (xs : List (StreamKey × StreamEntry F)) (t : Tracker F)
      → (drop_streams p xs t).dialog_rtp_observed ≡ t.dialog_rtp_observed
  unfolding drop_streams drop_stream
  drop_streams_observed p [] t = refl
  drop_streams_observed p ((k, e) ∷ xs) t =
      ground (arith, drop_streams_observed p xs t, drop_streams_observed p xs (drop_stream k t))

  replace_observed :
      (t : Tracker F) (c : String) → (replace t c).0.dialog_rtp_observed ≡ t.dialog_rtp_observed
  unfolding replace remove_call_media
  replace_observed t c = drop_streams_observed _ _ _

  -- The summary of a dialog without endpoints.
  unregister_empty :
      (t u : Tracker F) (c : String)
      → Released c t u
      → (unregister u c).1 ≡ record {
        media_expected = false;
        rtp_observed = some_or (lookup c u.dialog_rtp_observed) false;
        one_way = false;
      }
  unfolding unregister
  unregister_empty t u c r = rw (listed_same c t.call_media u.call_media r.no_media) refl

  observed_replace :
      (t : Tracker F) (c : String)
      → some_or (lookup c (replace t c).0.dialog_rtp_observed) false
        ≡ (unregister t c).1.rtp_observed
  unfolding unregister
  observed_replace t c = ap (λ m. some_or (lookup c m) false) (replace_observed t c)

  unregister_observed :
      (t : Tracker F) (c : String)
      → some_or (lookup c (unregister t c).0.dialog_rtp_observed) false ≡ false
  unfolding unregister
  unregister_observed t c =
      ground (arith, lookup-delete_self c (remove_call_media t c).dialog_rtp_observed)

  -- A dialog whose media revision was replaced, and no media registered after it, is reported at its
  -- teardown as one without media whose RTP was observed if it was before the replacement; a dialog
  -- that was torn down already is reported as one without media and without RTP.
  pub unregister-replace :
      (t : Tracker F) (c : String)
      → ((unregister (replace t c).0 c).1 ≡ record {
        media_expected = false;
        rtp_observed = (unregister t c).1.rtp_observed;
        one_way = false;
      })
        × ((unregister (unregister t c).0 c).1
            ≡ record { media_expected = false; rtp_observed = false; one_way = false })
  unregister-replace t c = (
    unregister_empty t (replace t c).0 c (replace-Released t c)
        ∙ ap (λ b. record { media_expected = false; rtp_observed = b; one_way = false })
            (observed_replace t c),
    unregister_empty t (unregister t c).0 c (unregister-Released t c)
        ∙ ap (λ b. record { media_expected = false; rtp_observed = b; one_way = false })
            (unregister_observed t c),
  )
