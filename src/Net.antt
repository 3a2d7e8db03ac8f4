-- ===== src/Net.antt =====
-- The parts of src/net/core and src/net/proxy.
pub mod IpFilter
pub mod Proxy
pub mod Socket
pub mod Poller
