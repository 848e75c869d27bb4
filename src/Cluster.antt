-- ===== src/Cluster.antt =====
-- durallm/storage/cluster.py, `ClusterPersistenceStore` without a Redis client: the state that the
-- replicas share. Times are in milliseconds.
pub mod Store
pub mod Leasing
pub mod Bucket
