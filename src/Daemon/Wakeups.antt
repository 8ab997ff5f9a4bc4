-- ===== src/Daemon/Wakeups.antt =====
-- daemon.py, `_handle_wakeup_set`: what it makes of the requests that client.py sends.
use sockpost.Common.{
  ℕ, ◌≡◌, ◌≤◌, ◌+◌, refl, true, false, [], ◌∷◌, arith, none, some, Text, text_eq, text_instance,
  Bool-cases, inl, inr, ltb, ◌==◌,
}
use sockpost.Common.Dict.{get}
use sockpost.Common.Int.{pos}
use sockpost.Common.Result.{ok}
use sockpost.Python.Value.{null, text, field_of, truth_of, to_int, to_text}
use sockpost.Protocol.Channel.{validate_channel}
use sockpost.Protocol.Interval.{max_interval_seconds}
use sockpost.Store.Wakeups.{save_wakeup, delete_wakeup}
use sockpost.Store.Wakeups.Rows.{
  wakeups_of, wakeup_row, wakeups_of-save_wakeup, wakeups_of-delete_wakeup,
}
use sockpost.Store.Validity.{IsValid}
use sockpost.Daemon.Scheduler.{Timer, armed}
use sockpost.Daemon.Scheduler.OneTimer.{pending, pending-arm, pending-cancel}
use sockpost.Daemon.Scheduler.Soundness.{IsSound}
use sockpost.Daemon.State.{
  Key, wakeup_key, key_eq, key_eq_iff, key_instance, Callback, Daemon, Moment, Payload, wakeup_off,
  wakeup_ok, fire_wakeup, reply,
}
use sockpost.Daemon.Timers.{next_generation, start_wakeup, stop_wakeup}
use sockpost.Daemon.Settling.{
  handle_wakeup_set, set_wakeup, set_seconds, set_interval, seconds_of, interval_text,
  or_zero_value,
}
use sockpost.Client.Wakeup.{wakeup_request, wakeup_off_request}

-- No wakeup is stored for the channel, and none is due.
abbrev pub IsOff : Text → Daemon → Type 0
IsOff channel d = (wakeups_of channel d.db ≡ []) × (pending (wakeup_key channel) d.scheduler ≡ none)

-- One wakeup is stored for the channel, and one is due, an interval from now.
abbrev pub IsEvery : Moment → Text → Text → ℕ → Daemon → Type 0
IsEvery w channel interval seconds d =
    (wakeups_of channel d.db ≡ wakeup_row channel interval seconds ∷ [])
    × (timer : Timer Key Callback) × (pending (wakeup_key channel) d.scheduler ≡ some timer)
    × (timer.deadline ≡ w.time + seconds)

-- A write changes neither.
module _ (w : Moment) (conn : ℕ) (payload : Payload) (channel : Text) (d : Daemon) where
  pub IsOff-reply : IsOff channel d → IsOff channel (reply w conn payload d)
  unfolding reply
  IsOff-reply off = elim (Bool-cases (w.takes conn)) [ inl e ↦ rw e off | inr e ↦ rw e off ]

  pub IsEvery-reply :
      (interval : Text) (seconds : ℕ)
      → IsEvery w channel interval seconds d
      → IsEvery w channel interval seconds (reply w conn payload d)
  unfolding reply
  IsEvery-reply interval seconds every = elim (Bool-cases (w.takes conn)) [
    | inl e ↦ rw e every
    | inr e ↦ rw e every
  ]

module _ (w : Moment) (conn : ℕ) (channel : Text) (d : Daemon)
    (valid : validate_channel (text channel) ≡ ok channel) where
  same_key : key_eq (wakeup_key channel) (wakeup_key channel) ≡ true
  same_key = (key_eq_iff (wakeup_key channel) (wakeup_key channel)).1 refl

  abbrev pub stopped : Daemon
  stopped = stop_wakeup channel (record d { db = (delete_wakeup channel d.db).1 })

  pub handle_wakeup_set-off :
      handle_wakeup_set w conn (wakeup_off_request channel) d
      ≡ reply w conn (wakeup_off channel) stopped
  unfolding handle_wakeup_set wakeup_off_request field_of get text_eq set_wakeup truth_of
  handle_wakeup_set-off = rw valid refl

  pub stopped-IsOff : IsSound d.scheduler → IsOff channel stopped
  unfolding stop_wakeup
  stopped-IsOff sound = (
    wakeups_of-delete_wakeup channel d.db,
    rw (pending-cancel (wakeup_key channel) (wakeup_key channel) d.scheduler sound, same_key) refl,
  )

  module _ (interval : Text) (seconds : ℕ) where
    abbrev pub started : Daemon
    started =
        start_wakeup w channel seconds (record d { db = save_wakeup channel interval seconds d.db })

    pub handle_wakeup_set-every :
        1 ≤ seconds
        → seconds ≤ max_interval_seconds
        → truth_of (text interval) ≡ true
        → handle_wakeup_set w conn (wakeup_request channel seconds interval) d
          ≡ reply w conn (wakeup_ok channel interval seconds) started
    unfolding handle_wakeup_set wakeup_request field_of get text_eq set_wakeup set_seconds
        seconds_of or_zero_value to_int set_interval interval_text to_text
    handle_wakeup_set-every low high given =
        let positive : (seconds == 0) ≡ false = ground arith in
        let within : ltb max_interval_seconds seconds ≡ false = ground arith in
        let not_off : truth_of null ≡ false = unfold truth_of in refl in
        rw (valid, not_off, positive, within, given) refl

    pub started-IsEvery :
        IsValid d.db → IsSound d.scheduler → IsEvery w channel interval seconds started
    unfolding start_wakeup
    started-IsEvery v sound = (
      wakeups_of-save_wakeup channel interval seconds d.db v.wakeups,
      armed w.time (wakeup_key channel) (pos seconds)
          (fire_wakeup channel seconds (next_generation channel d)) d.scheduler,
      rw
          (
            pending-arm w.time (wakeup_key channel) (wakeup_key channel) _ _ d.scheduler sound,
            same_key,
          )
          refl,
      refl,
    )
