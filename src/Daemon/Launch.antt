-- ===== src/Daemon/Launch.antt =====
-- daemon.py, `run` up to the event loop: what stands in the way of a second daemon.
use sockpost.Common.{
  ℕ, ◌≡◌, ◌≢◌, ◌≤◌, ◌<◌, arith, refl, Bool, true, false, List, [], ◌∷◌, Option, none, some, Text,
  text_instance, filter, update_where,
}
use sockpost.Config.{socket_path_problem, fs_size}
use sockpost.Store.Tables.{Db, Channel, init_schema}
use sockpost.Store.Channels.{reset_all_channels, list_connected, offline, sort_channels}

-- What a starting daemon finds: who holds the lock of the pid file, and what is at the socket's path.
pub data SocketFile : Type 0 where
  nothing_there left_over listening : SocketFile

-- What is written to the standard error.
pub data LaunchProblem : Type 0 where
  path_too_long : (size : ℕ) → LaunchProblem
  lock_held another_listens : LaunchProblem

-- The database file after the launch, and the problem that ended it, or none where it serves.
pub record Launched : Type 0 where
  pub file : Option Db
  pub problem : Option LaunchProblem

-- `store.init_schema(self.db)` and `store.reset_all_channels(self.db)`
unfoldable pub opened : Text → Option Db → Db
opened now file = reset_all_channels now (init_schema file)

with_socket : SocketFile → Option Db → Launched
with_socket nothing_there file = record { file = file; problem = none }
with_socket left_over file = record { file = file; problem = none }
with_socket listening file = record { file = file; problem = some another_listens }

with_lock : Text → Bool → SocketFile → Option Db → Launched
unfolding with_socket opened
with_lock now true socket file = record { file = file; problem = some lock_held }
with_lock now false socket file = with_socket socket (some (opened now file))

with_path : Text → Option ℕ → Bool → SocketFile → Option Db → Launched
unfolding with_lock
with_path now (some size) held socket file = record {
  file = file;
  problem = some (path_too_long size);
}
with_path now none held socket file = with_lock now held socket file

-- `run`, on a path, a pid file whose lock is held or not, and the file at the socket's path.
unfoldable pub launch : Text → Text → Bool → SocketFile → Option Db → Launched
unfolding with_path
launch now path held socket file = with_path now (socket_path_problem path) held socket file

-- The status that `run` returns, after it has served where nothing stood in the way.
unfoldable pub launch_status : Launched → ℕ
launch_status launched = elim launched.problem [ none ↦ 0 | some problem ↦ 1 ]

filter-offline :
    (now : Text) (cs : List Channel)
    → filter (λ (c : Channel). c.connected) (update_where (λ c. true) (offline now) cs) ≡ []
filter-offline now [] = refl
filter-offline now (c ∷ cs) = filter-offline now cs

opened-list_connected : (now : Text) (file : Option Db) → list_connected (opened now file) ≡ []
unfolding list_connected opened reset_all_channels sort_channels
opened-list_connected now file = rw (filter-offline now (init_schema file).channels) refl

-- How a launch ends, and what it leaves of the file.
abbrev pub IsRefused : Option Db → LaunchProblem → Launched → Type 0
IsRefused file problem launched =
    (launched.file ≡ file) × (launched.problem ≡ some problem) × (launch_status launched ≡ 1)

-- The file is opened, and keeps its messages, and no channel in it is connected.
abbrev pub IsOpened : Option Db → Launched → Type 0
IsOpened file launched =
    (db : Db) × (launched.file ≡ some db)
    × (db.messages ≡ (init_schema file).messages)
    × (list_connected db ≡ [])

-- By the length of the path, the lock and the socket.
abbrev pub IsLaunched : Text → Bool → SocketFile → Option Db → Launched → Type 0
IsLaunched path held socket file launched =
    (100 < fs_size path → IsRefused file (path_too_long (fs_size path)) launched)
    × (fs_size path ≤ 100 → held ≡ true → IsRefused file lock_held launched)
    × (fs_size path ≤ 100 → held ≡ false → IsOpened file launched)
    × (fs_size path ≤ 100
        → held ≡ false
        → socket ≡ listening
        → (launched.problem ≡ some another_listens) × (launch_status launched ≡ 1))
    × (fs_size path ≤ 100
        → held ≡ false
        → socket ≢ listening
        → (launched.problem ≡ none) × (launch_status launched ≡ 0))

opened-IsOpened :
    (now : Text) (file : Option Db) (problem : Option LaunchProblem)
    → IsOpened file (record { file = some (opened now file); problem = problem })
opened-IsOpened now file problem = (
  opened now file,
  refl,
  unfold opened reset_all_channels in refl,
  opened-list_connected now file,
)

path-short : (path : Text) → fs_size path ≤ 100 → socket_path_problem path ≡ none
unfolding socket_path_problem
path-short path h = ground arith

path-long : (path : Text) → 100 < fs_size path → socket_path_problem path ≡ some (fs_size path)
unfolding socket_path_problem
path-long path h = ground arith

-- A launch on a socket path of more than 100 bytes, or else while another process holds the lock, is refused for that
-- reason with status 1 and leaves the database file as it was. Every other launch leaves a database with the
-- same messages in which no channel is connected; it ends with status 1 if another process listens at the
-- socket's path, and else serves, also over a socket file that was left behind.
pub launch-IsLaunched :
    (now path : Text) (held : Bool) (socket : SocketFile) (file : Option Db)
    → IsLaunched path held socket file (launch now path held socket file)
unfolding launch with_path with_lock with_socket launch_status
launch-IsLaunched now path held socket file = (
  λ long. rw (path-long path long) (refl, refl, refl),
  λ short locked. rw (path-short path short, locked) (refl, refl, refl),
  λ short free. rw (path-short path short, free) (serving socket),
  λ short free there. rw (path-short path short, free, there) (refl, refl),
  λ short free not_there. rw (path-short path short, free) (quiet socket not_there),
)
  where
    serving : (socket : SocketFile) → IsOpened file (with_socket socket (some (opened now file)))
    serving nothing_there = opened-IsOpened now file none
    serving left_over = opened-IsOpened now file none
    serving listening = opened-IsOpened now file (some another_listens)

    quiet :
        (socket : SocketFile)
        → socket ≢ listening
        → let launched = with_socket socket (some (opened now file)) in
          (launched.problem ≡ none) × (launch_status launched ≡ 0)
    quiet nothing_there h = (refl, refl)
    quiet left_over h = (refl, refl)
    quiet listening h = absurd (h refl)
