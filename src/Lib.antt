-- ===== src/Lib.antt =====
-- sockpost, a local message bus for terminal agents (src/sockpost).
--
-- One daemon per host owns a Unix socket and a durable SQLite queue. Client commands send it requests, one
-- JSON object to a line; the daemon stores messages, hands them to the connection that owns the recipient's
-- channel, and takes acknowledgements. protocol.py holds what both sides share, store.py the queue,
-- daemon.py the broker, client.py and cli.py the commands, config.py the settings.
--
-- Which file models what:
--   * Common: tests, lists, results and dictionaries. A Python `str` is the list of its code points, an
--     integer a native number, or ℤ where it may be negative.
--   * Python: what the source uses of Python's `str`, `int` and `json`. `Value` is a JSON value; a float, a
--     list or an object is seen only through `str`, `bool` and `int`, which it carries along.
--   * Protocol/Channel (validate_channel), Protocol/Interval (parse_interval, format_duration),
--     Protocol/Encoding (encode, as far as which values it can encode),
--     Protocol/Timestamp (iso_at, parse_iso, age_seconds, with the calendar and the reader of `datetime`),
--     Protocol/Forward (forward_header, forward_body, parse_forward_header, split_forward, is_forward,
--     forward_hops): src/sockpost/protocol.py.
--   * Store/Tables, Store/Messages, Store/Channels, Store/Wakeups: src/sockpost/store.py, a function for each
--     function. A table is the list of its rows; a call takes the time that `now_iso()` returns in it.
--     Store/Operations has the calls as data, Store/Mailboxes the specification by queues.
--   * Daemon/Scheduler (class Scheduler), Daemon/State (the fields of class Daemon and what it writes to peers),
--     Daemon/Delivery (ChannelPacer, deliver_one, _route, the watchdog and the redelivery timer),
--     Daemon/Timers (wakeups, the sweep of orphans, what a timer calls), Daemon/Requests (_handle_send,
--     _handle_forward), Daemon/Settling (_handle_ack, _handle_wakeup_set), Daemon/Sessions (connect, eviction,
--     disconnect), Daemon/Loop (_dispatch, the start, the steps of the event loop): src/sockpost/daemon.py.
--     A step takes a `Moment`: the clock, the time stamps, which connections take a write, and whether SQLite
--     refuses an insertion, a mark of delivery or a sweep, the refusals that the code handles.
--   * Daemon/Walk carries a predicate that obeys a record of laws through every event; Daemon/Guard and
--     Daemon/History are its two uses. Daemon/Handing, Daemon/Acks, Daemon/Routing, Daemon/Forwarding,
--     Daemon/Redelivery, Daemon/Watchdog, Daemon/Wakeups and Daemon/Ownership say what single operations do.
--   * Daemon/Wire (the objects written to clients), Daemon/Log (class EventLog), Daemon/Launch (run, up to the
--     event loop), Daemon/Probes (_run_ping_probe, _collect_ping_ack): src/sockpost/daemon.py.
--   * Client/Settings (_resolve_id, _unreachable_hint, exit statuses and complaints), Client/Exchange
--     (_roundtrip), Client/Commands (cmd_send, cmd_forward, cmd_ack), Client/Wakeup (cmd_wakeup), Client/Events
--     (_print_event), Client/Listen (cmd_listen), Client/Queue (cmd_unread, cmd_status, cmd_ping), Client/Process
--     (_running_daemon_pid, cmd_stop, ensure_daemon): src/sockpost/client.py. A command is checks, a request and
--     what it makes of the answer; a listener is a step function over what happens to it. Their children
--     prove what they do.
--   * Cli (main): src/sockpost/cli.py.
--   * System runs a command of the client on the daemon's handler: the request reaches the event loop, and what
--     was written to that connection is what the client reads. System/Sends, System/Forwards,
--     System/Acks and System/Wakeups say what a status of 0 means.
--   * Config (_env_int, _env_bool, the integers of load_settings, socket_path_problem), Config/Paths (the
--     paths): src/sockpost/config.py.
--   * Tests: runs on concrete inputs.
--
-- A handler is one step, from its request to its last write: two handlers that interleave at an await are not
-- modelled, and a task that a timer or an eviction spawns runs with what spawned it. A write to a peer either
-- is taken or fails; how long it may block is not modelled.
--
-- Loops are structural recursions, or take fuel: the digits of a number take the number itself, which is enough
-- since each round divides by ten; the year of a date takes 8030, the years from 1970 to 9999, beyond
-- which `datetime` raises; the polls of the daemon take the 50 of the source.
--
-- Time stamps are printed for whole seconds from 1970 on. The connection of a command is what becomes of its one
-- request, the start of the daemon that precedes it included.
--
-- The event loop passes over the requests `ping_probe` and `ping_ack`: the table of probes, the checks that are
-- written and the result stand in Daemon/Probes, on a state of their own, where all the targets of a probe are
-- asked in one step and at one time. What a malformed request of these two is answered is not modelled.
--
-- A connection takes each write of a step or none. So a connection that connects again under the channel it
-- already has takes its reply, or not, as the step says, where the source closes it as the one it replaces.
--
-- A delay of the listener is the one before the jitter, which makes it up to a quarter shorter or longer.
--
-- Not modelled: files, sockets, processes and signals beyond what the code decides on them, argparse, the JSON text
-- of whole objects, the text of error messages where it holds `%r` or an exception, Python's limit on the
-- digits of `int`, floats, the wait of a ping probe, and a failure of SQLite beyond those that the code handles
-- and an integer of more than 64 bits.
pub mod Cli
pub mod Client
pub mod Common
pub mod Config
pub mod Daemon
pub mod Protocol
pub mod Python
pub mod Store
pub mod System
pub mod Tests
