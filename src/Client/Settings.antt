-- ===== src/Client/Settings.antt =====
-- client.py: what the commands read of the settings, what they complain of, and how they end.
use sockpost.Common.{◌≡◌, ap, ℕ, Bool, ◌∷◌, [], List, Option, none, some, Text}
use sockpost.Common.Result.{Result, ok, err}
use sockpost.Python.Value.{Value, null, text}
use sockpost.Protocol.Channel.{validate_channel, ChannelError}
use sockpost.Protocol.Channel.Exact.{validate_channel_idem}
use sockpost.Protocol.Interval.{IntervalError}
use sockpost.Config.{socket_path_problem}

-- Of the paths, `str(path)`.
pub record ClientSettings : Type 0 where
  pub socket_path : Text
  pub autostart : Bool
  pub default_id : Option Text

-- What is written to the standard error behind `error: `, by what the text says.
pub data Complaint : Type 0 where
  missing_id : (flag : Text) → Complaint
  not_a_channel : ChannelError → Complaint
  not_an_interval : IntervalError → Complaint
  missing_text missing_targets message_id_not_a_number : Complaint
  message_dropped note_dropped no_reply no_probe_answer : Complaint
  unreadable_database unreadable_queue : Complaint
  socket_path_too_long : (size : ℕ) → Complaint
  not_answering : (path : Text) → Complaint
  refused : (said : Text) → Complaint
  older_daemon : (command : Text) → Complaint
  not_allowed did_not_stop : (pid : ℕ) → Complaint
  traceback : Complaint

-- The exit status, what was printed, and what was complained of.
pub record Outcome : Type 0 where
  pub code : ℕ
  pub lines : List Text
  pub complaints : List Complaint

abbrev pub exits : ℕ → List Text → Outcome
exits code lines = record { code = code; lines = lines; complaints = [] }

-- `_fail`
abbrev pub fail : Complaint → Outcome
fail complaint = record { code = 1; lines = []; complaints = complaint ∷ [] }

-- A Python value that may be None.
unfoldable pub optional : Option Text → Value
optional none = null
optional (some s) = text s

unfoldable pub channel_or_complaint : Result ChannelError Text → Result Complaint Text
channel_or_complaint (ok channel) = ok channel
channel_or_complaint (err e) = err (not_a_channel e)

-- `value or default`
candidate : Option Text → Option Text → Option Text
candidate none default = default
candidate (some []) default = default
candidate (some (c ∷ s)) default = some (c ∷ s)

validated : Text → Option Text → Result Complaint Text
unfolding channel_or_complaint
validated flag none = err (missing_id flag)
validated flag (some []) = err (missing_id flag)
validated flag (some (c ∷ s)) = channel_or_complaint (validate_channel (text (c ∷ s)))

-- `_resolve_id`
unfoldable pub resolve_id : ClientSettings → Option Text → Text → Result Complaint Text
unfolding candidate validated
resolve_id settings value flag = validated flag (candidate value settings.default_id)

hint : Text → Option ℕ → Complaint
hint path (some size) = socket_path_too_long size
hint path none = not_answering path

-- `_unreachable_hint`
unfoldable pub unreachable_hint : ClientSettings → Complaint
unfolding hint
unreachable_hint settings = hint settings.socket_path (socket_path_problem settings.socket_path)

channel_or_complaint-ok :
    (r : Result ChannelError Text) (channel : Text)
    → channel_or_complaint r ≡ ok channel
    → r ≡ ok channel
unfolding channel_or_complaint
channel_or_complaint-ok (ok s) channel h = let same : s ≡ channel = cc in ap ok same
channel_or_complaint-ok (err e) channel h = absurd cc

validated-ok :
    (flag : Text) (chosen : Option Text) (channel : Text)
    → validated flag chosen ≡ ok channel
    → validate_channel (text channel) ≡ ok channel
unfolding validated
validated-ok flag none channel h = absurd cc
validated-ok flag (some []) channel h = absurd cc
validated-ok flag (some (c ∷ s)) channel h =
    validate_channel_idem (text (c ∷ s)) channel (channel_or_complaint-ok _ channel h)

-- A resolved id is a channel id.
pub resolve_id-valid :
    (settings : ClientSettings) (value : Option Text) (flag channel : Text)
    → resolve_id settings value flag ≡ ok channel
    → validate_channel (text channel) ≡ ok channel
unfolding resolve_id
resolve_id-valid settings value flag channel h =
    validated-ok flag (candidate value settings.default_id) channel h

-- The channel id that another argument names.
pub channel_or_complaint-valid :
    (value : Value) (channel : Text)
    → channel_or_complaint (validate_channel value) ≡ ok channel
    → (validate_channel value ≡ ok channel) × (validate_channel (text channel) ≡ ok channel)
channel_or_complaint-valid value channel h =
    let valid = channel_or_complaint-ok (validate_channel value) channel h in
    (valid, validate_channel_idem value channel valid)
