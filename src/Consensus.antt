-- ===== src/Consensus.antt =====
-- consensus/: the leader of a round and the rule that commits it.
pub mod Leader
pub mod Commit
