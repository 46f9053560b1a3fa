-- ===== src/Json.antt =====
-- The parser of the browser's messages, emulator/web_json.c.
pub mod Scan
pub mod Value
pub mod Message
pub mod Bounds
pub mod Total
pub mod Limits
pub mod Depth
pub mod Decimal
pub mod RoundTrip
mod Tests
