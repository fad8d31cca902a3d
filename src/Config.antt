-- ===== src/Config.antt =====
-- src/config/: the parameters, the layers of configuration and the store in the database.
pub mod Text
pub mod Params
pub mod Layers
pub mod Values
pub mod Files
pub mod Handle
pub mod Boot
