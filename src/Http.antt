-- ===== src/Http.antt =====
-- The HTTP layer of src/net/http.
pub mod Request
pub mod Builder
pub mod Fields
pub mod Llhttp
pub mod RequestParser
pub mod ResponseParser
pub mod PersistentCache
pub mod HttpCache
pub mod HttpConn
pub mod ConnectionIo
