-- ===== src/Storage.antt =====
-- crates/types/src/storage and crates/vm_interface/src/storage: what the VM reads and writes.
pub mod Log
