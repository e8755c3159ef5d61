-- ===== src/Tree.antt =====
-- cpptools/container/tree: the nodes on a heap, the forest they stand for, and the operations.
pub mod Store
pub mod Forest
pub mod Node
pub mod Traversal
pub mod Graft
pub mod Unsafe
pub mod Iterator
mod Tests
