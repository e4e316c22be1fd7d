-- ===== src/DataStruct.antt =====
-- pkg/data_struct: the generic containers.
pub mod Heap
pub mod LinkedList
mod Examples
pub mod Queue
pub mod Stack
