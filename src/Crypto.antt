-- ===== src/Crypto.antt =====
-- client/js/crypto.js: the encodings, the signed transcript, messages, files and the vault.
pub mod Primitives
pub mod Encoding
pub mod Transcript
pub mod Wrap
pub mod Message
pub mod File
pub mod Binding
pub mod Identity
pub mod Vault
pub mod Toy
mod Tests
mod SealTests
