-- ===== src/Vm.antt =====
-- crates/multivm and crates/vm_interface: storage as the VM sees it.
pub mod Dedup
pub mod History
pub mod Undo
pub mod Rollback
pub mod Snapshots
pub mod Storage
pub mod Cache
