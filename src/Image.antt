-- ===== src/Image.antt =====
-- crates/image: the image store.
pub mod Store
mod Tests
