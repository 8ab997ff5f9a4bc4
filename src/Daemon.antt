-- ===== src/Daemon.antt =====
-- daemon.py, the broker.
pub mod Scheduler
pub mod State
pub mod Delivery
pub mod Timers
pub mod Requests
pub mod Settling
pub mod Sessions
pub mod Loop
pub mod Walk
pub mod Wire
pub mod Log
pub mod Launch
pub mod Probes
pub mod Guard
pub mod History
pub mod Forwarding
pub mod Handing
pub mod Acks
pub mod Ownership
pub mod Routing
pub mod Watchdog
pub mod Redelivery
pub mod Wakeups
