-- ===== src/Captcha.antt =====
-- src/services/captcha/: the renderer.
pub mod Floats
pub mod Draw
pub mod Loop
pub mod Generator
pub mod Render
pub mod Laws
pub mod Service
pub mod Mask
