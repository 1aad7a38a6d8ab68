-- ===== src/Origin.antt =====
-- The demonstration origins of origin/: a site of images, and the handlers of its profiles.
pub mod Site
pub mod Categories
pub mod Assets
pub mod Workers
pub mod Resize
pub mod Views
pub mod Handlers
pub mod Main
mod Tests
