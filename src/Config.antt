-- ===== src/Config.antt =====
-- The application's configuration, one row of JSON that administrators replace.
pub mod Model
pub mod Store
pub mod Laws
