-- ===== src/Json.antt =====
-- core/src/json_common.h: the values of the server's JSON.
pub mod Digits
pub mod Values
pub mod RoundTrip
pub mod Timestamps
pub mod Envelope
