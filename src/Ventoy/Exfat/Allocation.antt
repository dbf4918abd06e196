-- ===== src/Ventoy/Exfat/Allocation.antt =====
-- `allocate_clusters` and `free_cluster_chain`.
pub mod Search
pub mod Marks
pub mod Links
pub mod Effects
pub mod Allocate
pub mod Free
pub mod Beyond
pub mod Outcome
