-- ===== src/Api.antt =====
-- internal/api: the handlers of the web interface.
pub mod Settings
