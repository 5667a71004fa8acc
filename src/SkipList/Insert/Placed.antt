-- ===== src/SkipList/Insert/Placed.antt =====
-- Parts 3 to 5 of `slInsert`: the list after the new node is filled in and linked.
pub mod Fields
pub mod Chains
