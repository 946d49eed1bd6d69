-- ===== src/Web.antt =====
-- bridge/internal/web: the server, its API and its pages, over the backend that it serves.
pub mod Translations
pub mod Views
pub mod Server
pub mod Guards
pub mod Reload
pub mod Api
pub mod Events
pub mod Pages
pub mod Handler
pub mod Backends
pub mod Labels
pub mod Devices
