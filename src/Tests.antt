-- ===== src/Tests.antt =====
-- Concrete runs of the theorems.
mod Data
mod Handlers
mod Options
mod Restore
mod Driver
mod Start
mod Ports
mod Web
