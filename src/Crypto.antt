-- ===== src/Crypto.antt =====
-- crypto/: the primitives, one module for each file of the package.
pub mod Sha256
pub mod Hmac
pub mod Aes
pub mod Gcm
pub mod P256
pub mod Ecdsa
pub mod Ecdh
mod Vectors
