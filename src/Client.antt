-- ===== src/Client.antt =====
-- The client: the keystore of client/keystore.py, the trust store of client/trust_store.py, both over
-- a disk, and the operations of client/client.py.
pub mod Paths
pub mod Disk
pub mod Keystore
pub mod TrustStore
pub mod Requests
pub mod Session
pub mod Account
pub mod Contacts
pub mod Sealing
pub mod Opening
pub mod Documents
