-- ===== src/ViewChange.antt =====
-- viewchange_mgr.go: the parts of a view change.
pub mod Assign
pub mod Basis
pub mod Initial
