-- ===== src/Panel.antt =====
-- The panel daemon, src/nscde_paneld/nscde_paneld.c.
pub mod Settings
pub mod Workspaces
pub mod Theme
pub mod Modules
pub mod Metrics
pub mod Launchers
pub mod Applets
pub mod State
pub mod Geometry
pub mod Hits
pub mod Frames
pub mod Updates
pub mod Events
pub mod Runtime
pub mod Actions
pub mod Subpanels
