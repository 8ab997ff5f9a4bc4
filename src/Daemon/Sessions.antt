-- ===== src/Daemon/Sessions.antt =====
-- daemon.py: connect, eviction and disconnect.
use sockpost.Common.{
  ℕ, true, false, not, List, [], ◌∷◌, Option, none, some, if◌then◌else◌, Text, text_instance,
  nat_eq,
}
use sockpost.Common.Dict.{get, put, remove}
use sockpost.Store.Messages.{pending_ids, reset_pending}
use sockpost.Store.Channels.{set_channel_state}
use sockpost.Daemon.Scheduler.{Scheduler, cancel}
use sockpost.Daemon.State.{
  Daemon, Moment, connected, evicted, Key, redeliver_key, key_instance, Callback, is_member,
  discard, without, reply, write_all,
}
use sockpost.Daemon.Delivery.{receivers_of, schedule_delivery}

-- The rows that the channel is owed are to be sent again.
unfoldable pub take_over : Moment → ℕ → Text → Daemon → Daemon
take_over w conn channel d =
    let reset = reset_pending channel d.db in
    record d {
      receivers = put channel (conn ∷ []) d.receivers;
      inflight = without reset.0 d.inflight;
      db = set_channel_state w.now channel true reset.1;
    }

-- The peers that are replaced are told so, and closed; their own disconnect is a later step. Where the
-- reply fails, the exception leaves `_on_client` without its `channel`. A connection that connects again under its
-- channel takes its reply as the step says.
unfoldable pub handle_connect : Moment → ℕ → Text → Daemon → Daemon
unfolding take_over
handle_connect w conn channel d =
    let told = write_all w (receivers_of channel d) (evicted channel) d in
    let replied = reply w conn (connected channel) (take_over w conn channel told) in
    if w.takes conn
    then schedule_delivery channel (record replied { serving = put conn channel replied.serving })
    else replied

unfoldable pub cancel_all : List ℕ → Scheduler Key Callback → Scheduler Key Callback
cancel_all [] s = s
cancel_all (id ∷ ids) s = cancel_all ids (cancel (redeliver_key id) s)

unfoldable pub leave : Moment → Text → Daemon → Daemon
unfolding cancel_all
leave w channel d =
    let pending = pending_ids channel d.db in
    record d {
      receivers = remove channel d.receivers;
      pacers = remove channel d.pacers;
      inflight = without pending d.inflight;
      scheduler = cancel_all pending d.scheduler;
      db = set_channel_state w.now channel false d.db;
    }

-- `connections.remove(conn)`: a connection stands in the list once.
unfoldable pub drop_connection : Moment → Text → List ℕ → Daemon → Daemon
unfolding leave
drop_connection w channel [] d = leave w channel d
drop_connection w channel (other ∷ others) d = record d {
  receivers = put channel (other ∷ others) d.receivers;
}

unfoldable pub handle_disconnect : Moment → ℕ → Option Text → Daemon → Daemon
unfolding drop_connection
handle_disconnect w conn none d = d
handle_disconnect w conn (some channel) d =
    if not (is_member conn (receivers_of channel d))
    then d
    else drop_connection w channel (discard conn (receivers_of channel d)) d

-- The end of `_on_client`.
unfoldable pub close_connection : Moment → ℕ → Daemon → Daemon
unfolding handle_disconnect
close_connection w conn d =
    handle_disconnect w conn (get conn d.serving) (record d { serving = remove conn d.serving })
