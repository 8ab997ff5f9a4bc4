-- ===== src/Client.antt =====
-- client.py: the commands, each a short-lived process that asks the daemon once, and the listener.
pub mod Settings
pub mod Exchange
pub mod Commands
pub mod Wakeup
pub mod Events
pub mod Listen
pub mod Queue
pub mod Process
pub mod Encoding
