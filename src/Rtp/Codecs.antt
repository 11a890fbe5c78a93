-- ===== src/Rtp/Codecs.antt =====
-- Which names `CodecName` gives, and what `IsAudioCodec` says of them.
use sip_exporter.Prelude.{ℕ, ◌≡◌, ◌≢◌, List, String, some, arith, nat_key}
use sip_exporter.Prelude.Assoc.{lookup}
use sip_exporter.Rtp.{codec_name}

-- A name from the SDP wins over the static table, unless it is empty.
pub codec_name_sdp :
    (pt : ℕ) (sdp : List (ℕ × String)) (name : String)
    → lookup pt sdp ≡ some name
    → name ≢ ""
    → codec_name pt sdp ≡ name
unfolding codec_name
codec_name_sdp pt sdp name e h = ground arith
