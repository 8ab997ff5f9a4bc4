-- ===== src/Store/Wakeups.antt =====
-- store.py, wakeups.
pub mod Rows
use sockpost.Common.{
  ℕ, Bool, not, List, [], ◌∷◌, ◌++◌, if◌then◌else◌, Text, text_eq, any, filter, count, update_where,
}
use sockpost.Store.Tables.{Wakeup, Db}

-- INSERT … ON CONFLICT(channel) DO UPDATE
unfoldable pub save_wakeup : Text → Text → ℕ → Db → Db
save_wakeup channel interval seconds db =
    let here : Wakeup → Bool = λ w. text_eq w.channel channel in
    let row : Wakeup = record { channel = channel; interval = interval; seconds = seconds } in
    if any here db.wakeups
    then record db {
      wakeups =
          update_where here (λ w. record w { interval = interval; seconds = seconds }) db.wakeups;
    }
    else record db { wakeups = db.wakeups ++ row ∷ [] }

unfoldable pub delete_wakeup : Text → Db → ℕ × Db
delete_wakeup channel db = (
  count (λ w. text_eq w.channel channel) db.wakeups,
  record db { wakeups = filter (λ w. not (text_eq w.channel channel)) db.wakeups },
)

abbrev pub list_wakeups : Db → List Wakeup
list_wakeups db = db.wakeups
