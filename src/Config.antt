-- ===== src/Config.antt =====
-- config.py: the readers of environment values, the settings of the daemon that are integers, and the length
-- of the socket's path. The two settings that are floats are not modelled.
pub mod Paths
use sockpost.Common.{
  ℕ, ◌+◌, ◌≡◌, refl, Bool, true, ◌||◌, ◌&&◌, [], ◌∷◌, ◌++◌, ltb, leb, Option, none, some,
  if◌then◌else◌, Text, codes, text_eq, text_eq_iff, text_instance, ◌>>=◌, Bool-cases, inl, inr,
}
use sockpost.Common.Int.{ℤ, pos}
use sockpost.Common.Dict.{Dict, get}
use sockpost.Python.Space.{strip, lower}
use sockpost.Python.Decimal.{int_text, int_text-blank}
use sockpost.Daemon.State.{Settings}

-- os.environ
abbrev pub Environment : Type 0
Environment = Dict Text Text

abbrev pub env_prefix : Text
env_prefix = codes "SOCKPOST_"

unfoldable pub env : Text → Environment → Option Text
env name environment = get (env_prefix ++ name) environment

is_blank : Text → Bool
is_blank raw = text_eq (strip raw) []

abbrev pub or_default : ℤ → Option ℤ → ℤ
or_default default none = default
or_default default (some z) = z

read_int : ℤ → Option Text → ℤ
unfolding is_blank
read_int default none = default
read_int default (some raw) = if is_blank raw then default else or_default default (int_text raw)

-- `_env_int`
unfoldable pub env_int : Text → ℤ → Environment → ℤ
unfolding env read_int
env_int name default environment = read_int default (env name environment)

is_yes : Text → Bool
is_yes s =
    text_eq s (codes "1")
    || text_eq s (codes "true")
    || text_eq s (codes "yes")
    || text_eq s (codes "on")

read_bool : Bool → Option Text → Bool
unfolding is_blank is_yes
read_bool default none = default
read_bool default (some raw) = if is_blank raw then default else is_yes (lower (strip raw))

-- `_env_bool`
unfoldable pub env_bool : Text → Bool → Environment → Bool
unfolding env read_bool
env_bool name default environment = read_bool default (env name environment)

-- `load_settings`, the fields that the daemon's handlers read.
unfoldable pub load_settings : Environment → Settings
unfolding env_int
load_settings environment = record {
  redeliver_gap = env_int (codes "REDELIVER_GAP") (pos 120) environment;
  drain_batch = env_int (codes "DRAIN_BATCH") (pos 10) environment;
  ack_timeout_online = env_int (codes "ACK_TIMEOUT_ONLINE") (pos 30) environment;
  ack_timeout_offline = env_int (codes "ACK_TIMEOUT_OFFLINE") (pos 60) environment;
  max_body_bytes = env_int (codes "MAX_BODY_BYTES") (pos 1048576) environment;
  max_forward_hops = env_int (codes "MAX_FORWARD_HOPS") (pos 3) environment;
  orphan_sweep_interval = env_int (codes "ORPHAN_SWEEP_INTERVAL") (pos 900) environment;
}

blank-int_text : (raw : Text) → is_blank raw ≡ true → int_text raw ≡ none
unfolding is_blank
blank-int_text raw b = int_text-blank raw ((text_eq_iff (strip raw) []).0 b)

-- An integer setting is the number that its variable holds, and the default where the variable is
-- not set or does not hold a number.
pub env_int-or_default :
    (name : Text) (default : ℤ) (environment : Environment)
    → env_int name default environment ≡ or_default default (env name environment >>= int_text)
unfolding env_int
env_int-or_default name default environment = by_value (env name environment)
  where
    by_value : (o : Option Text) → read_int default o ≡ or_default default (o >>= int_text)
    by_value none = refl
    by_value (some raw) = elim (Bool-cases (is_blank raw)) [
      | inl b ↦ rw (b, blank-int_text raw b) refl
      | inr b ↦ rw b refl
    ]

-- The bytes of a character that the file system sees. The environment gives no surrogate but those
-- that stand for a byte which is not UTF-8.
fs_char_size : ℕ → ℕ
fs_char_size c =
    if ltb c 0x80
    then 1
    else if ltb c 0x800
    then 2
    else if leb 0xDC80 c && leb c 0xDCFF
    then 1
    else if ltb c 0x10000
    then 3
    else 4

-- len(os.fsencode(path))
unfoldable pub fs_size : Text → ℕ
unfolding fs_char_size
fs_size [] = 0
fs_size (c ∷ path) = fs_char_size c + fs_size path

abbrev pub socket_path_limit : ℕ
socket_path_limit = 100

-- `socket_path_problem`, as the size that it reports.
unfoldable pub socket_path_problem : Text → Option ℕ
unfolding fs_size
socket_path_problem path =
    if ltb socket_path_limit (fs_size path) then some (fs_size path) else none
