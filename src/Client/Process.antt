-- ===== src/Client/Process.antt =====
-- client.py: starting and stopping the daemon's process.
pub mod Polling
pub mod Stopping
pub mod Starting
use sockpost.Common.{
  ℕ, zero, suc, Bool, true, false, not, ◌||◌, [], ◌∷◌, ◌++◌, Option, none, some, if◌then◌else◌,
  ◌==◌, Text, codes, ◌>>=◌,
}
use sockpost.Common.Int.{ℤ, pos, negsuc}
use sockpost.Python.Space.{strip}
use sockpost.Python.Decimal.{to_decimal, int_text}
use sockpost.Config.{socket_path_problem}
use sockpost.Client.Settings.{ClientSettings, not_allowed, did_not_stop, Outcome, exits, fail}

-- The file of the daemon's pid, to one who tries its lock: not there, not to be opened, not locked, or
-- locked by a daemon, with its content, `none` where that is no text.
pub data PidFile : Type 0 where
  absent unopened unlocked : PidFile
  locked : (content : Option Text) → PidFile

unfoldable pub or_zero_text : Text → Text
or_zero_text [] = codes "0"
or_zero_text (c ∷ s) = c ∷ s

unfoldable pub positive_pid : ℤ → Option ℕ
positive_pid (pos n) = if n == 0 then none else some n
positive_pid (negsuc n) = none

-- `_running_daemon_pid`
unfoldable pub running_daemon_pid : PidFile → Option ℕ
unfolding or_zero_text positive_pid int_text strip
running_daemon_pid absent = none
running_daemon_pid unopened = none
running_daemon_pid unlocked = none
running_daemon_pid (locked none) = none
running_daemon_pid (locked (some content)) =
    int_text (strip (or_zero_text content)) >>= positive_pid

-- os.kill(pid, SIGTERM): it goes through, or a ProcessLookupError, or a PermissionError.
pub data Kill : Type 0 where
  signalled no_process forbidden : Kill

-- Whether one of the next `polls` looks at the daemon, from the `i`-th on, sees `wanted`; and how many
-- naps that took. `alive i` is the i-th answer of `daemon_alive`.
unfoldable pub polled : (ℕ → Bool) → Bool → ℕ → ℕ → Bool × ℕ
polled alive wanted zero i = (false, 0)
polled alive wanted (suc polls) i =
    let (seen, naps) = polled alive wanted polls (suc i) in
    if (if wanted then alive i else not (alive i)) then (true, 0) else (seen, suc naps)

pub stopped : ℕ → Bool → Outcome
stopped pid true = exits 0 ((codes "daemon=stopped pid=" ++ to_decimal pid) ∷ [])
stopped pid false = fail (did_not_stop pid)

pub stop_signalled : ℕ → Kill → (ℕ → Bool) → Outcome
unfolding stopped
stop_signalled pid no_process alive = exits 0 (codes "daemon=down" ∷ [])
stop_signalled pid forbidden alive = fail (not_allowed pid)
stop_signalled pid signalled alive = stopped pid (polled alive false 50 0).0

pub stop_pid : Option ℕ → Kill → (ℕ → Bool) → Outcome
unfolding stop_signalled
stop_pid none kill alive = exits 0 (codes "daemon=down" ∷ [])
stop_pid (some pid) kill alive = stop_signalled pid kill alive

-- `cmd_stop`
unfoldable pub cmd_stop : PidFile → Kill → (ℕ → Bool) → Outcome
unfolding running_daemon_pid stop_pid
cmd_stop file kill alive = stop_pid (running_daemon_pid file) kill alive

-- How the parent sees the fork: there is none, and Popen succeeds or not; `waitpid` fails; or it gives
-- the exit status of the intermediate, or says that a signal ended it.
pub data Fork : Type 0 where
  no_fork : (started : Bool) → Fork
  not_waited killed : Fork
  exited : (status : ℕ) → Fork

-- `_spawn_detached`
unfoldable pub spawn_detached : Fork → Bool
spawn_detached (no_fork started) = started
spawn_detached not_waited = true
spawn_detached killed = false
spawn_detached (exited status) = status == 0

-- What `ensure_daemon` returns, whether it started a process, and how often it napped.
pub record Ensured : Type 0 where
  pub answers : Bool
  pub started : Bool
  pub naps : ℕ

abbrev ensured : Bool → Bool → ℕ → Ensured
ensured answers started naps = record { answers = answers; started = started; naps = naps }

pub has_no_problem : Option ℕ → Bool
has_no_problem none = true
has_no_problem (some n) = false

pub launched : Bool → Bool × ℕ → Ensured
launched false (answers, naps) = ensured false false 0
launched true (answers, naps) = ensured answers true naps

pub started_daemon : Fork → (ℕ → Bool) → Ensured
unfolding launched
started_daemon fork alive = launched (spawn_detached fork) (polled alive true 50 1)

-- `ensure_daemon`
unfoldable pub ensure_daemon : ClientSettings → Fork → (ℕ → Bool) → Ensured
unfolding started_daemon has_no_problem socket_path_problem
ensure_daemon settings fork alive =
    if alive 0
    then ensured true false 0
    else if not settings.autostart
        || not (has_no_problem (socket_path_problem settings.socket_path))
    then ensured false false 0
    else started_daemon fork alive
