-- ===== src/Tests.antt =====
-- Runs of the definitions on concrete inputs, and the theorems applied to such inputs.
mod Patterns
mod Document
mod Casts
mod Defines
mod Logs
mod Configs
mod Threads
mod Locks
mod Variables
