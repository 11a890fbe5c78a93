-- ===== src/Tracker/Text.antt =====
-- The exported methods of the tracker, with the text of addresses.
use sip_exporter.Prelude.{ℕ, Bool, String, List, map, Option, none, some}
use sip_exporter.Prelude.Int.{ℤ}
use sip_exporter.Tracker.{
  Ipv4, Netip, Endpoint, new_binary_endpoint_key, new_ipv4_endpoint_key, ip_string, MediaLabels,
  MediaEndpoint, Tracker,
}
use sip_exporter.Tracker.Media.{
  RtpDialogResult, register, register_rtcp, unregister, replace, owned_endpoints,
}
use sip_exporter.Tracker.Alias.{learn_source_alias}
use sip_exporter.Tracker.Rtp.{lookup_endpoint}
use sip_exporter.Tracker.Rtcp.{RtcpContext, lookup_by_ssrc, record_rtcp}

pub record AliasOwnership : Type 0 where
  pub endpoint : MediaEndpoint
  pub call_id : String

pub record RegisterResult : Type 0 where
  pub added : Bool
  pub displaced_alias : Option AliasOwnership

abbrev pub media_endpoint : Netip → Endpoint → MediaEndpoint
media_endpoint np k = record { ip = ip_string np k; port = k.port }

module _ {F : Type 0} where
  abbrev pub set_ttl : Tracker F → ℕ → Tracker F
  set_ttl t ttl = record t { ttl = ttl }

  -- `Register`
  unfoldable pub register_text :
      Netip → Tracker F → String → ℕ → MediaLabels → Tracker F × RegisterResult
  register_text np t ip port labels =
      let (u, added, displaced) = register t (new_binary_endpoint_key np ip port) labels in
      let displaced_alias = elim displaced as (λ o. Option AliasOwnership) [
        | none ↦ none
        | some (key, call_id) ↦
            some (record { endpoint = record { ip = ip; port = port }; call_id = call_id })
      ] in
      (u, record { added = added; displaced_alias = displaced_alias })

  -- `RegisterRTCP`
  unfoldable pub register_rtcp_text :
      Netip → Tracker F → String → ℕ → String → ℕ → String → Tracker F × Bool
  register_rtcp_text np t ip port rtp_ip rtp_port call_id =
      register_rtcp t (new_binary_endpoint_key np ip port)
        (new_binary_endpoint_key np rtp_ip rtp_port) call_id

  -- `OwnedEndpoints`, `Unregister` and `Replace`
  unfoldable pub owned_text : Netip → Tracker F → String → List MediaEndpoint
  owned_text np t c = map (media_endpoint np) (owned_endpoints t c)

  unfoldable pub unregister_text :
      Netip → Tracker F → String → Tracker F × RtpDialogResult × List MediaEndpoint
  unregister_text np t c =
      let (u, result, deleted) = unregister t c in (u, result, map (media_endpoint np) deleted)

  unfoldable pub replace_text : Netip → Tracker F → String → Tracker F × List MediaEndpoint
  replace_text np t c = let (u, deleted) = replace t c in (u, map (media_endpoint np) deleted)

  -- `LearnSourceAlias`
  unfoldable pub learn_text :
      Netip → Tracker F → String → String → ℕ → String → ℕ → Tracker F × Option MediaEndpoint
  learn_text np t c matched_ip matched_port source_ip source_port =
      let (u, alias) =
        learn_source_alias t c (new_binary_endpoint_key np matched_ip matched_port)
          (new_binary_endpoint_key np source_ip source_port) in
      (
        u,
        elim alias as (λ o. Option MediaEndpoint) [
          | none ↦ none
          | some a ↦ some (media_endpoint np a)
        ],
      )

  -- `Lookup`
  unfoldable pub lookup_text : Netip → Tracker F → String → ℕ → Option MediaLabels
  lookup_text np t ip port = lookup_endpoint t (new_binary_endpoint_key np ip port)

  -- `LookupBySSRC`, `RecordRTCP` and `RecordRTCPIPv4`
  unfoldable pub lookup_by_ssrc_text :
      Netip → Tracker F → ℕ → String → ℕ → String → ℕ → Option RtcpContext
  lookup_by_ssrc_text np t ssrc src_ip src_port dst_ip dst_port =
      lookup_by_ssrc t ssrc (new_binary_endpoint_key np src_ip src_port)
        (new_binary_endpoint_key np dst_ip dst_port)

  unfoldable pub record_rtcp_text :
      Netip → Tracker F → ℕ → ℕ → ℤ → String → ℕ → String → ℕ → Tracker F × Option (RtcpContext × ℕ)
  record_rtcp_text np t now ssrc cumulative src_ip src_port dst_ip dst_port =
      record_rtcp t now ssrc cumulative (new_binary_endpoint_key np src_ip src_port)
        (new_binary_endpoint_key np dst_ip dst_port)

  unfoldable pub record_rtcp_ipv4 :
      Tracker F → ℕ → ℕ → ℤ → Ipv4 → ℕ → Ipv4 → ℕ → Tracker F × Option (RtcpContext × ℕ)
  record_rtcp_ipv4 t now ssrc cumulative src_ip src_port dst_ip dst_port =
      record_rtcp t now ssrc cumulative (new_ipv4_endpoint_key src_ip src_port)
        (new_ipv4_endpoint_key dst_ip dst_port)
