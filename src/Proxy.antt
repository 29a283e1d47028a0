-- ===== src/Proxy.antt =====
-- src/proxy.cpp: the connection operation and the accept loop.
pub mod Connection
pub mod Closing
pub mod Loop
pub mod Served
pub mod Cancel
pub mod Composed
pub mod Persistence
pub mod Rounds
