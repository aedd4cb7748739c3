-- ===== src/Scenarios.antt =====
-- Runs of the code on concrete inputs.
mod Arrivals
mod Server
mod Expiry
mod Progress
mod Setting
mod Orders
mod Failures
mod Notifications
mod Dispatching
mod Rules
mod Records
