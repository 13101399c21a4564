-- ===== src/Web.antt =====
-- web/static/js/openfsd: the pages of the web interface.
pub mod Base64
pub mod Api
pub mod Dates
pub mod UserEditor
pub mod ConfigEditor
pub mod Dashboard
pub mod Messages
pub mod Login
mod Tests
