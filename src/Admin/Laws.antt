-- ===== src/Admin/Laws.antt =====
-- How the endpoints of src/routes/admin.rs keep the handle and the database in step.
pub mod Candidate
pub mod Mirror
pub mod Put
pub mod Removal
pub mod Delete
