-- ===== src/Store/Tables.antt =====
-- store.py: the schema. A table is the list of its rows; messages stand in the order of their ids.
use sockpost.Common.{
  ℕ, ◌-◌, ◌^◌, Bool, true, false, List, [], Option, none, some, leb, ◌==◌, Text, codes,
}
use sockpost.Common.Int.{ℤ, pos, negsuc}

-- STATE_PENDING, STATE_ACKED, STATE_EXPIRED
pub data State : Type 0 where
  pending acked expired : State

abbrev pub is_pending : State → Bool
is_pending pending = true
is_pending acked = false
is_pending expired = false

abbrev pub schema_version : Text
schema_version = codes "1"

abbrev pub max_rowid : ℕ
max_rowid = 2 ^ 63 - 1

pub record Message : Type 0 where
  pub id : ℕ
  pub recipient : Text
  pub sender : Text
  pub body : Text
  pub created_at : Text
  pub state : State
  pub resolved_at : Option Text
  pub delivered_at : Option Text
  pub failure_reported_at : Option Text

pub record Channel : Type 0 where
  pub id : Text
  pub connected : Bool
  pub since : Option Text
  pub updated_at : Option Text

pub record Wakeup : Type 0 where
  pub channel : Text
  pub interval : Text
  pub seconds : ℕ

-- `last_id` is what AUTOINCREMENT remembers: the greatest id that was ever given.
pub record Db : Type 0 where
  pub messages : List Message
  pub last_id : ℕ
  pub channels : List Channel
  pub wakeups : List Wakeup
  pub version : Text

-- `init_schema` on a file with no tables, and on one that has them: CREATE TABLE IF NOT EXISTS and
-- INSERT OR IGNORE leave what is there.
unfoldable pub init_schema : Option Db → Db
init_schema none = record {
  messages = [];
  last_id = 0;
  channels = [];
  wakeups = [];
  version = schema_version;
}
init_schema (some db) = db

-- The two ways in which a call of SQLite fails here: an integer that does not fit its 64 bits (Python's
-- OverflowError), and an `sqlite3.Error`.
pub data Failure : Type 0 where
  overflow sqlite_error : Failure

-- A Python integer can be bound to a parameter.
unfoldable pub fits : ℤ → Bool
fits (pos n) = leb n max_rowid
fits (negsuc n) = leb n max_rowid

-- `id = ?`
unfoldable pub same_id : ℤ → ℕ → Bool
same_id (pos n) id = id == n
same_id (negsuc n) id = false
