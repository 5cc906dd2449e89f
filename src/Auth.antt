-- ===== src/Auth.antt =====
-- Registration, login and refresh tokens.
pub mod Compare
pub mod Crypto
pub mod Service
pub mod Keeping
pub mod Reads
pub mod Lasting
pub mod Lookup
pub mod Accepted
pub mod Sessions
pub mod Failing
pub mod NotNull
pub mod Encoding
