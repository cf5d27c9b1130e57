-- ===== src/Formats.antt =====
-- common/formats.py: the SVD1 and SVS1 byte formats.
pub mod Reader
pub mod Codec
pub mod Document
pub mod Payload
pub mod Share
