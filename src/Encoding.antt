-- ===== src/Encoding.antt =====
-- The parts of Go's standard library that build and read texts: base64, decimal numbers, and texts
-- joined by a separator.
pub mod Base64
pub mod Decimal
pub mod Join
pub mod Hex
