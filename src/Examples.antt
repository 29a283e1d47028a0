-- ===== src/Examples.antt =====
-- The programs under examples/.
pub mod Server
pub mod Fleet
pub mod Search
pub mod IpParser
pub mod Requests
