-- ===== src/Examples.antt =====
-- The theorems at concrete inputs, and runs of the code that can be followed in the source.
mod Rtp
mod Rtcp
mod Stream
mod Dialogs
mod Fraud
mod Ring
mod Layers
mod Queue
mod Tracker
mod Endpoints
mod Invites
mod Sdp
mod Sip
mod E164
mod Delays
mod Payloads
