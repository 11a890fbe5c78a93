-- ===== src/Tracker.antt =====
-- internal/mediatracker/tracker.go and endpoint.go: the tables that tie RTP flows to SIP dialogs.
-- Every exported method runs under the mutex, so it is one step. Times are nanoseconds; the zero
-- time is 0. A nil inner map is read as the empty one.
pub mod Index
pub mod Media
pub mod Alias
pub mod Rtp
pub mod Rtcp
pub mod Indexed
pub mod Calls
pub mod Owned
pub mod Reported
pub mod Text
pub mod Resolution
pub mod Observed
pub mod Aging
pub mod Release
pub mod Loss
use sip_exporter.Prelude.{
  ℕ, Bool, true, false, ◌&&◌, not, String, List, [], ◌∷◌, Option, none, some, ite, ◌==◌,
  if◌then◌else◌, Key, string_key, nat_key, String-discrete, ℕ_discrete,
}
use sip_exporter.Prelude.Int.{ℤ, pos}
use sip_exporter.Stream.{StreamState}

pub record Ipv4 : Type 0 where
  pub a : ℕ
  pub b : ℕ
  pub c : ℕ
  pub d : ℕ

-- What the code uses of net/netip: `ParseAddr` where it gives an IPv4 address, and the text of one.
pub record Netip : Type 0 where
  pub parse_addr4 : String → Option Ipv4
  pub text4 : Ipv4 → String

abbrev pub matched_by_dst : String
matched_by_dst = "dst"

abbrev pub matched_by_src : String
matched_by_src = "src"

abbrev pub default_clock_rate : ℕ
default_clock_rate = 8000

abbrev pub alias_endpoint_count : ℕ
alias_endpoint_count = 2

-- `binaryEndpointKey`
pub record Endpoint : Type 0 where
  pub fallback_ip : String
  pub ipv4 : Ipv4
  pub port : ℕ
  pub is_ipv4 : Bool

unfoldable pub Endpoint-discrete : Discrete Endpoint
Endpoint-discrete = hlevel (String-discrete, ℕ_discrete)

instance abbrev pub endpoint_key : Key Endpoint
endpoint_key = record { same = Endpoint-discrete }

abbrev pub zero_ipv4 : Ipv4
zero_ipv4 = record { a = 0; b = 0; c = 0; d = 0 }

abbrev pub new_ipv4_endpoint_key : Ipv4 → ℕ → Endpoint
new_ipv4_endpoint_key ip port = record { fallback_ip = ""; ipv4 = ip; port = port; is_ipv4 = true }

abbrev pub new_binary_endpoint_key : Netip → String → ℕ → Endpoint
new_binary_endpoint_key np ip port = elim (np.parse_addr4 ip) [
  | none ↦ record { fallback_ip = ip; ipv4 = zero_ipv4; port = port; is_ipv4 = false }
  | some addr ↦ new_ipv4_endpoint_key addr port
]

abbrev pub ip_string : Netip → Endpoint → String
ip_string np k = if not k.is_ipv4 then k.fallback_ip else np.text4 k.ipv4

unfoldable pub Ipv4-discrete : Discrete Ipv4
Ipv4-discrete = hlevel (ℕ_discrete)

unfoldable pub same_ip : Endpoint → Endpoint → Bool
same_ip k other = elim k.is_ipv4 [
  | true ↦ if other.is_ipv4 then ite (Ipv4-discrete k.ipv4 other.ipv4) true false else false
  | false ↦
      if other.is_ipv4
      then false
      else ite (String-discrete k.fallback_ip other.fallback_ip) true false
]

pub record MediaLabels : Type 0 where
  pub carrier : String
  pub ua_type : String
  pub source_country : String
  pub direction : String
  pub call_id : String
  pub sdp_codecs : List (ℕ × String)
  pub clock_rates : List (ℕ × ℕ)

pub record MediaEndpoint : Type 0 where
  pub ip : String
  pub port : ℕ

pub record RtcpMediaEntry : Type 0 where
  pub call_id : String
  pub rtp_endpoint : Endpoint

pub record StreamKey : Type 0 where
  pub endpoint : Endpoint
  pub ssrc : ℕ

unfoldable pub StreamKey-discrete : Discrete StreamKey
StreamKey-discrete = hlevel (String-discrete, ℕ_discrete)

instance abbrev pub stream_key : Key StreamKey
stream_key = record { same = StreamKey-discrete }

-- `rtcp_prev_loss` is an int32.
pub record StreamEntry (F : Type 0) : Type 0 where
  pub state : StreamState F
  pub labels : MediaLabels
  pub codec : String
  pub last_rtcp : ℕ
  pub rtcp_prev_loss : ℤ
  pub rtcp_loss_seen : Bool

pub record Tracker (F : Type 0) : Type 0 where
  pub streams : List (StreamKey × StreamEntry F)
  pub media : List (Endpoint × MediaLabels)
  pub media_owners : List (Endpoint × List String)
  pub call_media : List (String × List (Endpoint × MediaLabels))
  pub call_media_order : List (String × List Endpoint)
  pub source_aliases : List (String × List (Endpoint × Endpoint))
  pub media_aliases : List (Endpoint × MediaLabels)
  pub rtcp_media : List (Endpoint × RtcpMediaEntry)
  pub rtcp_owners : List (Endpoint × List String)
  pub call_rtcp : List (String × List (Endpoint × RtcpMediaEntry))
  pub call_rtp : List (String × List (Endpoint × Unit {0}))
  pub dialog_rtp_observed : List (String × Bool)
  pub ssrc_index : List (ℕ × List StreamKey)
  pub ttl : ℕ

abbrev pub new_tracker : {F : Type 0} → ℕ → Tracker F
new_tracker ttl = record {
  streams = [];
  media = [];
  media_owners = [];
  call_media = [];
  call_media_order = [];
  source_aliases = [];
  media_aliases = [];
  rtcp_media = [];
  rtcp_owners = [];
  call_rtcp = [];
  call_rtp = [];
  dialog_rtp_observed = [];
  ssrc_index = [];
  ttl = ttl;
}
