-- ===== src/Encodings.antt =====
-- The encodings of Python's standard library that the program uses for bytes inside messages.
pub mod Base64
pub mod Hex
