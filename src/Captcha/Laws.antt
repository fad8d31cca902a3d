-- ===== src/Captcha/Laws.antt =====
-- What is proved of the renderer.
pub mod Runs
pub mod Total
pub mod Generated
pub mod Draws
pub mod Service
