-- ===== src/Utils.antt =====
-- internal/controller/utils: small functions that the controller's packages share.
pub mod Collections
pub mod Bytes
pub mod Encoding
pub mod Fingerprint
pub mod Conditions
pub mod Names
pub mod Env
pub mod Hash
