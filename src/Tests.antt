-- ===== src/Tests.antt =====
-- Runs on concrete inputs, and each theorem at an input that meets its hypotheses.
mod Protocol
mod Store
mod Daemon
mod Forwarding
mod Scheduler
mod Sessions
mod Sends
mod Redelivery
mod Config
mod Commands
mod Client
mod Timestamps
