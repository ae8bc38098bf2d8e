-- ===== src/Geoctl.antt =====
-- cmd/geoctl: how the commands put the components together. The loaded configuration is an argument
-- of each command; what a command prints is left out.
pub mod Build
pub mod Commands
pub mod Serve
