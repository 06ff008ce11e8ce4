-- ===== src/Raft.antt =====
-- src/raft: what the cluster agrees on. Only the state machine is modelled; the log, the network and
-- the storage of openraft are not.
pub mod Fsm
