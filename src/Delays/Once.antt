-- ===== src/Delays/Once.antt =====
-- The measures that sequences of calls take, and the requests that they store.
use sip_exporter.Invites.{bytes_key}
use sip_exporter.Delays.{Delays}
