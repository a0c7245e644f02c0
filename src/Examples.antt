-- ===== src/Examples.antt =====
-- Concrete runs.
mod Messages
mod Files
mod Members
mod Records
mod Clients
mod Histories
mod Joins
mod Commands
mod Connections
mod Restored
