-- ===== src/Cmd.antt =====
-- cli/cmd/main.go: the commands.
pub mod Package
pub mod Journal
pub mod Loaders
pub mod Commands
