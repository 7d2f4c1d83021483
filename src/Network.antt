-- ===== src/Network.antt =====
-- network/.
pub mod Peer
