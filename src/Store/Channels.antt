-- ===== src/Store/Channels.antt =====
-- store.py, channels.
use sockpost.Common.{
  Bool, true, false, List, [], ◌∷◌, ◌++◌, map, Option, none, some, if◌then◌else◌, Text, text_eq,
  text_lt, any, filter, find?, update_where,
}
use sockpost.Store.Tables.{Channel, Wakeup, Db}

-- UPDATE, and INSERT where it changed no row; `since` is the time of the last connect.
unfoldable pub set_channel_state : Text → Text → Bool → Db → Db
set_channel_state now channel connected db =
    let here : Channel → Bool = λ c. text_eq c.id channel in
    let since : Channel → Option Text = λ c. if connected then some now else c.since in
    let row : Channel = record {
      id = channel;
      connected = connected;
      since = if connected then some now else none;
      updated_at = some now;
    } in
    if any here db.channels
    then record db {
      channels =
          update_where here
            (λ c. record c { connected = connected; since = since c; updated_at = some now })
            db.channels;
    }
    else record db { channels = db.channels ++ row ∷ [] }

abbrev pub offline : Text → Channel → Channel
offline now c = record c { connected = false; updated_at = some now }

unfoldable pub reset_all_channels : Text → Db → Db
reset_all_channels now db = record db {
  channels = update_where (λ c. true) (offline now) db.channels;
}

-- ORDER BY c.id
insert_sorted : Channel → List Channel → List Channel
insert_sorted c [] = c ∷ []
insert_sorted c (d ∷ ds) =
    let rest = insert_sorted c ds in if text_lt d.id c.id then d ∷ rest else c ∷ d ∷ ds

unfoldable pub sort_channels : List Channel → List Channel
unfolding insert_sorted
sort_channels [] = []
sort_channels (c ∷ cs) = insert_sorted c (sort_channels cs)

-- LEFT JOIN wakeups w ON w.channel = c.id
unfoldable pub list_connected : Db → List (Channel × Option Wakeup)
unfolding sort_channels
list_connected db =
    map (λ c. (c, find? (λ w. text_eq w.channel c.id) db.wakeups))
      (sort_channels (filter (λ c. c.connected) db.channels))
