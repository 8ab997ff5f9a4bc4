-- ===== src/Daemon/Loop.antt =====
-- daemon.py: the routing of requests, and the daemon as the steps of its event loop.
use sockpost.Common.{ℕ, ◌≡◌, refl, List, [], ◌∷◌, Option, if◌then◌else◌, Text, codes, text_eq}
use sockpost.Common.Result.{Result, ok, err}
use sockpost.Python.Value.{Value, null, bool, int, text, other, Request, field_of}
use sockpost.Protocol.Channel.{validate_channel, ChannelError}
use sockpost.Store.Tables.{Db, init_schema}
use sockpost.Store.Channels.{reset_all_channels}
use sockpost.Daemon.Scheduler.{idle}
use sockpost.Daemon.State.{
  Daemon, Moment, Settings, Key, Callback, bad_channel, unknown_op, error, pong, reply,
}
use sockpost.Daemon.Delivery.{pace}
use sockpost.Daemon.Timers.{tick, restore_wakeups, sweep_orphans, schedule_orphan_sweep}
use sockpost.Daemon.Requests.{handle_send, handle_forward}
use sockpost.Daemon.Settling.{handle_ack, handle_wakeup_set}
use sockpost.Daemon.Sessions.{handle_connect, close_connection}

-- The requests' `op`.
pub data Op : Type 0 where
  connect send forward ack wakeup_set ping ping_probe ping_ack unknown : Op

op_named : Text → Op
op_named s =
    if text_eq s (codes "connect")
    then connect
    else if text_eq s (codes "send")
    then send
    else if text_eq s (codes "forward")
    then forward
    else if text_eq s (codes "ack")
    then ack
    else if text_eq s (codes "wakeup_set")
    then wakeup_set
    else if text_eq s (codes "ping")
    then ping
    else if text_eq s (codes "ping_probe")
    then ping_probe
    else if text_eq s (codes "ping_ack")
    then ping_ack
    else unknown

pub op_of : Value → Op
unfolding op_named
op_of null = unknown
op_of (bool b) = unknown
op_of (int z) = unknown
op_of (text s) = op_named s
op_of (other shown truth converted) = unknown

unfoldable pub connect_as : Moment → ℕ → Result ChannelError Text → Daemon → Daemon
connect_as w conn (err e) d = reply w conn (error (bad_channel e)) d
connect_as w conn (ok channel) d = handle_connect w conn channel d

-- `ping_probe` and `ping_ack` change nothing of this state; what they write and keep is in Daemon/Probes.
unfoldable pub dispatch_op : Moment → ℕ → Request → Op → Daemon → Daemon
unfolding connect_as
dispatch_op w conn request connect d =
    connect_as w conn (validate_channel (field_of (codes "id") request)) d
dispatch_op w conn request send d = handle_send w conn request d
dispatch_op w conn request forward d = handle_forward w conn request d
dispatch_op w conn request ack d = handle_ack w conn request d
dispatch_op w conn request wakeup_set d = handle_wakeup_set w conn request d
dispatch_op w conn request ping d = reply w conn pong d
dispatch_op w conn request ping_probe d = d
dispatch_op w conn request ping_ack d = d
dispatch_op w conn request unknown d = reply w conn (error unknown_op) d

unfoldable pub dispatch : Moment → ℕ → Request → Daemon → Daemon
unfolding dispatch_op op_of
dispatch w conn request d = dispatch_op w conn request (op_of (field_of (codes "op") request)) d

-- What wakes the event loop.
pub data Event : Type 0 where
  receives : (conn : ℕ) → (request : Request) → Event
  closes : (conn : ℕ) → Event
  paces : (channel : Text) → Event
  ticks : Event

unfoldable pub step : Moment → Event → Daemon → Daemon
unfolding dispatch
step w (receives conn request) d = dispatch w conn request d
step w (closes conn) d = close_connection w conn d
step w (paces channel) d = pace w channel d
step w ticks d = tick w d

unfoldable pub run_events : List (Moment × Event) → Daemon → Daemon
unfolding step
run_events [] d = d
run_events ((w, e) ∷ es) d = run_events es (step w e d)

unfoldable pub fresh : Settings → Db → Daemon
fresh settings db = record {
  settings = settings;
  receivers = [];
  serving = [];
  pacers = [];
  inflight = [];
  wakeup_generation = [];
  scheduler = idle Key Callback;
  db = db;
  sent = [];
}

-- `run` and `_serve` up to the first client, on a database file that may not be there yet.
unfoldable pub start : Moment → Settings → Option Db → Daemon
unfolding fresh
start w settings file = schedule_orphan_sweep w (
    sweep_orphans w
      (restore_wakeups w (fresh settings (reset_all_channels w.now (init_schema file)))))

module _ (w : Moment) (conn : ℕ) (request : Request) (d : Daemon) where
  -- The handler that a request's `op` chooses.
  pub dispatch-send :
      field_of (codes "op") request ≡ text (codes "send")
      → dispatch w conn request d ≡ handle_send w conn request d
  unfolding dispatch dispatch_op op_of text_eq
  dispatch-send q = rw (dispatch, q) refl

  pub dispatch-ack :
      field_of (codes "op") request ≡ text (codes "ack")
      → dispatch w conn request d ≡ handle_ack w conn request d
  unfolding dispatch dispatch_op op_of text_eq
  dispatch-ack q = rw (dispatch, q) refl

  pub dispatch-forward :
      field_of (codes "op") request ≡ text (codes "forward")
      → dispatch w conn request d ≡ handle_forward w conn request d
  unfolding dispatch dispatch_op op_of text_eq
  dispatch-forward q = rw (dispatch, q) refl

  pub dispatch-wakeup_set :
      field_of (codes "op") request ≡ text (codes "wakeup_set")
      → dispatch w conn request d ≡ handle_wakeup_set w conn request d
  unfolding dispatch dispatch_op op_of text_eq
  dispatch-wakeup_set q = rw (dispatch, q) refl
