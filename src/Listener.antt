-- ===== src/Listener.antt =====
-- include/foxy/listener.hpp: the accept loop and the operation for each connection.
pub mod Connection
pub mod Accepting
pub mod Runs
pub mod Sessions
