-- ===== src/Cluster.antt =====
-- cluster_query.go: a query that goes to all partitions, on the leader.
pub mod Mapper
pub mod Query
pub mod Sending
mod Tests
