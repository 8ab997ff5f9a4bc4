-- ===== src/Config/Paths.antt =====
-- config.py: where the files live, with what it uses of Python's `pathlib`.
use sockpost.Common.{
  ℕ, Bool, true, not, ◌||◌, List, [], ◌∷◌, ◌++◌, Option, none, some, if◌then◌else◌, ◌==◌, Text,
  codes, text_eq, text_instance, filter,
}
use sockpost.Common.Dict.{get}
use sockpost.Python.Decimal.{to_decimal}
use sockpost.Config.{Environment, env, env_bool}
use sockpost.Client.Settings.{ClientSettings}

-- APP_NAME
abbrev pub app_name : Text
app_name = codes "sockpost"

-- A PurePosixPath: its root, which is empty, `/` or `//`, and the parts behind it.
pub record FilePath : Type 0 where
  pub root : Text
  pub parts : List Text

-- s.split("/")
split_slashes : Text → List Text
split_slashes [] = [] ∷ []
split_slashes (c ∷ s) = elim (split_slashes s) [
  | [] ↦ (c ∷ []) ∷ []
  | ◌∷◌ part parts ↦ if c == b'/' then [] ∷ part ∷ parts else (c ∷ part) ∷ parts
]

is_part : Text → Bool
is_part part = not (text_eq part [] || text_eq part (codes "."))

-- Three slashes or more are one.
root_of : Text → Text
root_of [] = []
root_of (c ∷ []) = if c == b'/' then codes "/" else []
root_of (c ∷ d ∷ []) = if c == b'/' then (if d == b'/' then codes "//" else codes "/") else []
root_of (c ∷ d ∷ e ∷ s) =
    if c == b'/'
    then (if d == b'/' then (if e == b'/' then codes "/" else codes "//") else codes "/")
    else []

-- Path(s)
unfoldable pub path_of : Text → FilePath
unfolding split_slashes is_part root_of
path_of s = record { root = root_of s; parts = filter is_part (split_slashes s) }

-- path / name, where `name` is one relative part
unfoldable pub below : FilePath → Text → FilePath
below path name = record path { parts = path.parts ++ name ∷ [] }

join_slashes : List Text → Text
join_slashes [] = []
join_slashes (part ∷ []) = part
join_slashes (part ∷ next ∷ parts) = part ++ (b'/' ∷ join_slashes (next ∷ parts))

or_dot : Text → Text
or_dot [] = codes "."
or_dot (c ∷ s) = c ∷ s

-- str(path)
unfoldable pub path_text : FilePath → Text
unfolding join_slashes or_dot
path_text path = or_dot (path.root ++ join_slashes path.parts)

-- `value or default`, where a missing or an empty value is false
or_text : Option Text → Text → Text
or_text none default = default
or_text (some []) default = default
or_text (some (c ∷ s)) default = c ∷ s

or_path : Option Text → FilePath → FilePath
unfolding path_of
or_path none default = default
or_path (some []) default = default
or_path (some (c ∷ s)) default = path_of (c ∷ s)

-- `os.getuid()`, and what `os.path.expanduser` makes of the two directories below `~`.
pub record Account : Type 0 where
  pub uid : ℕ
  pub local_share : Text
  pub local_state : Text

unfoldable pub data_dir : Account → Environment → FilePath
unfolding or_text below path_of
data_dir account environment =
    below (path_of (or_text (get (codes "XDG_DATA_HOME") environment) account.local_share)) app_name

unfoldable pub state_dir : Account → Environment → FilePath
unfolding or_text below path_of
state_dir account environment =
    below (path_of (or_text (get (codes "XDG_STATE_HOME") environment) account.local_state))
      app_name

socket_in_tmp : Account → Environment → FilePath
unfolding or_text below path_of
socket_in_tmp account environment =
    below (path_of (or_text (get (codes "TMPDIR") environment) (codes "/tmp")))
      (app_name ++ (codes "-" ++ (to_decimal account.uid ++ codes ".sock")))

runtime_socket : Option Text → FilePath → FilePath
unfolding below path_of
runtime_socket none default = default
runtime_socket (some []) default = default
runtime_socket (some (c ∷ s)) default =
    below (below (path_of (c ∷ s)) app_name) (codes "daemon.sock")

unfoldable pub default_socket_path : Account → Environment → FilePath
unfolding socket_in_tmp runtime_socket
default_socket_path account environment =
    runtime_socket (get (codes "XDG_RUNTIME_DIR") environment) (socket_in_tmp account environment)

-- The paths of `load_settings`.
pub record Paths : Type 0 where
  pub socket_path : FilePath
  pub db_path : FilePath
  pub pid_path : FilePath
  pub log_path : FilePath

unfoldable pub load_paths : Account → Environment → Paths
unfolding or_path env
load_paths account environment = record {
  socket_path =
      or_path (env (codes "SOCKET") environment) (default_socket_path account environment);
  db_path =
      or_path (env (codes "DB") environment)
        (below (data_dir account environment) (codes "queue.db"));
  pid_path =
      or_path (env (codes "PID") environment)
        (below (state_dir account environment) (codes "daemon.pid"));
  log_path =
      or_path (env (codes "LOG") environment)
        (below (state_dir account environment) (codes "daemon.log"));
}

-- What the commands read of `load_settings`.
unfoldable pub load_client_settings : Account → Environment → ClientSettings
unfolding load_paths env_bool
load_client_settings account environment = record {
  socket_path = path_text (load_paths account environment).socket_path;
  autostart = env_bool (codes "AUTOSTART") true environment;
  default_id = env (codes "ID") environment;
}
