-- ===== src/Cluster.antt =====
-- src/cluster: where shards are placed, and the state of a node of the cluster.
pub mod Placement
pub mod Manager
pub mod Topology
