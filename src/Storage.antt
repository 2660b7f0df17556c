-- ===== src/Storage.antt =====
-- kernel/storage.hxx: the memory primitives, the text primitives and the dynamic list.
pub mod Memory
pub mod Text
pub mod DynamicList
mod Tests
