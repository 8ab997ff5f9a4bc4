-- ===== src/Store.antt =====
-- store.py: the tables of the queue database and every function over them. A call is one transaction;
-- `now` is what `now_iso()` returns in it.
pub mod Tables
pub mod Messages
pub mod Channels
pub mod Wakeups
pub mod Keyed
pub mod Operations
pub mod Validity
pub mod History
pub mod Mailboxes
