-- ===== src/Client.antt =====
-- python/wye: the package that clients and workers import. It is a program of another language, and
-- stands here for what the service's requests and status channels hold in practice.
pub mod Decimal
pub mod Control
pub mod Request
pub mod Fields
pub mod Classes
pub mod Accepted
pub mod Wired
pub mod Reply
pub mod Calls
pub mod Deploy
