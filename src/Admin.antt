-- ===== src/Admin.antt =====
-- frontend/src/pages/admin/: the pages of the administration.
pub mod Tags
pub mod Users
pub mod Images
pub mod Dashboard
mod Tests
