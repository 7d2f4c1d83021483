-- ===== src/Node.antt =====
-- node/: what a node keeps between the network and the consensus.
pub mod Mempool
pub mod Blocks
