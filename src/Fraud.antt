-- ===== src/Fraud.antt =====
-- internal/exporter/fraud.go: registration scans, INVITE bursts and False Answer Supervision. A
-- tracker that its constructor refuses is Go's nil, here `none`. Every method runs under the
-- tracker's mutex, so it is one step. `now` is the clock that the call reads; the `Bool` or the
-- list that a method returns says which counter calls it makes. Times are nanoseconds, and
-- `ts.Before(now.Add(-window))` is `ts + window < now`.
pub mod Scan
pub mod Burst
pub mod Answer
