-- ===== src/Network.antt =====
-- The `network` namespace: src/network and inc/network.
pub mod Events
pub mod SendBuffer
pub mod Connection
pub mod Serving
pub mod Client
pub mod Cgi
mod Tests
