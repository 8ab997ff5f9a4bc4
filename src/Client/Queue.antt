-- ===== src/Client/Queue.antt =====
-- client.py: the commands that read the database, and the probes.
use sockpost.Common.{
  ℕ, ◌+◌, ◌*◌, ◌/◌, ◌%◌, ◌^◌, Bool, true, false, not, ◌||◌, ◌&&◌, List, [], ◌∷◌, ◌++◌, map, Option,
  none, some, if◌then◌else◌, ltb, ◌==◌, Text, codes, text_instance, filter, length,
}
use sockpost.Common.Int.{ℤ}
use sockpost.Common.Dict.{Dict, get}
use sockpost.Common.Result.{Result, ok, err}
use sockpost.Python.Space.{strip}
use sockpost.Python.Decimal.{to_decimal}
use sockpost.Python.Json.{dumps_text}
use sockpost.Python.Value.{text, Request, to_text}
use sockpost.Protocol.Channel.{validate_channel}
use sockpost.Protocol.Interval.{format_duration}
use sockpost.Protocol.Timestamp.{age_seconds}
use sockpost.Store.Tables.{Db, Message, Channel, Wakeup}
use sockpost.Store.Messages.{list_unread}
use sockpost.Store.Channels.{list_connected}
use sockpost.Client.Settings.{
  ClientSettings, Complaint, unreadable_database, unreadable_queue, missing_targets,
  no_probe_answer, Outcome, exits, fail, optional, channel_or_complaint, unreachable_hint,
}
use sockpost.Client.Exchange.{replied, troubled, unencodable, Contact, exchange, has_op}

-- What a command finds of the database: no file, one that it cannot open or cannot list, or the rows.
pub data Database : Type 0 where
  no_file cannot_open cannot_list : Database
  holds : Db → Database

waiting_text : Option ℤ → Text
unfolding format_duration
waiting_text none = codes "unknown"
waiting_text (some age) = format_duration (some age)

unfoldable pub unread_line : ℕ → Message → Text
unfolding waiting_text age_seconds dumps_text
unread_line now m =
    codes "id="
    ++ (to_decimal m.id
        ++ (codes " from="
            ++ (m.sender
                ++ (codes " to="
                    ++ (m.recipient
                        ++ (codes " waiting="
                            ++ (waiting_text (age_seconds now (some m.created_at))
                                ++ (codes " text=" ++ dumps_text m.body))))))))

unread_outcome : ℕ → List Message → Outcome
unfolding unread_line
unread_outcome now rows =
    exits 0 ((codes "unread n=" ++ to_decimal (length rows)) ∷ map (unread_line now) rows)

-- `P.validate_channel(only_id) if only_id else None`
only_channel : Option Text → Result Complaint (Option Text)
only_channel none = ok none
only_channel (some []) = ok none
only_channel (some (c ∷ s)) = elim (channel_or_complaint (validate_channel (text (c ∷ s)))) [
  | ok channel ↦ ok (some channel)
  | err complaint ↦ err complaint
]

listed : ℕ → Database → Option Text → Outcome
unfolding unread_outcome list_unread
listed now (holds db) channel = unread_outcome now (list_unread channel db)
listed now _ channel = fail unreadable_queue

-- `cmd_unread`, at a time in whole seconds
unfoldable pub cmd_unread : ℕ → Database → Option Text → Outcome
unfolding only_channel listed
cmd_unread now no_file only_id = exits 0 (codes "unread n=0" ∷ [])
cmd_unread now cannot_open only_id = fail unreadable_database
cmd_unread now database only_id = elim (only_channel only_id) [
  | err complaint ↦ fail complaint
  | ok channel ↦ listed now database channel
]

-- What a probe reports: the latencies of the channels that answered, as "%.0f" prints them.
abbrev pub Latencies : Type 0
Latencies = Dict Text Text

-- `_ping_targets`, where `results_of` reads `reply.get("results", {})`. Targets are channel ids, so a
-- probe can be encoded.
unfoldable pub ping_targets : (Request → Latencies) → Contact → Option Latencies
unfolding has_op exchange
ping_targets results_of contact = elim (exchange (codes "ping_result") contact) [
  | replied (some reply) ↦ if has_op (codes "error") reply then none else some (results_of reply)
  | replied none ↦ none
  | troubled trouble ↦ none
  | unencodable ↦ none
]

-- One line for a target: `silent` is what stands behind `timeout=`.
unfoldable pub probe_line : Text → Latencies → Text → Text
probe_line silent results target = elim (get target results) [
  | none ↦ codes "silence id=" ++ (target ++ (codes " timeout=" ++ (silent ++ codes "s")))
  | some latency ↦ codes "pong id=" ++ (target ++ (codes " rtt=" ++ (latency ++ codes "ms")))
]

is_silent : Latencies → Text → Bool
is_silent results target = elim (get target results) [ none ↦ true | some latency ↦ false ]

unfoldable pub silent_targets : Latencies → List Text → List Text
unfolding is_silent
silent_targets results targets = filter (is_silent results) targets

-- csv.split(",")
unfoldable pub split_commas : Text → List Text
split_commas [] = [] ∷ []
split_commas (c ∷ s) = elim (split_commas s) [
  | [] ↦ (c ∷ []) ∷ []
  | ◌∷◌ part parts ↦ if c == b',' then [] ∷ part ∷ parts else (c ∷ part) ∷ parts
]

is_white : Text → Bool
is_white s = elim (strip s) [ [] ↦ true | ◌∷◌ c rest ↦ false ]

unfoldable pub validate_all : List Text → Result Complaint (List Text)
unfolding is_white
validate_all [] = ok []
validate_all (part ∷ parts) =
    let rest = validate_all parts in
    if is_white part then rest else elim (channel_or_complaint (validate_channel (text part))) [
      | err complaint ↦ err complaint
      | ok target ↦ elim rest [ err complaint ↦ err complaint | ok targets ↦ ok (target ∷ targets) ]
    ]

status_of : List Text → ℕ
status_of [] = 0
status_of (target ∷ dead) = 1

unfoldable pub probed : Text → List Text → Option Latencies → Outcome
unfolding probe_line silent_targets status_of
probed timeout targets none = fail no_probe_answer
probed timeout targets (some results) =
    exits (status_of (silent_targets results targets)) (map (probe_line timeout results) targets)

ping_all : ClientSettings → (Request → Latencies) → List Text → Text → Bool → Contact → Outcome
unfolding probed ping_targets
ping_all settings results_of [] timeout alive contact = fail missing_targets
ping_all settings results_of (t ∷ ts) timeout alive contact =
    if alive
    then probed timeout (t ∷ ts) (ping_targets results_of contact)
    else fail (unreachable_hint settings)

-- `cmd_ping`: `timeout` is the number as "%g" prints it, `alive` what `daemon_alive` says.
unfoldable pub cmd_ping :
    ClientSettings → (Request → Latencies) → Text → Text → Bool → Contact → Outcome
unfolding split_commas validate_all ping_all
cmd_ping settings results_of targets timeout alive contact =
    elim (validate_all (split_commas targets)) [
      | err complaint ↦ fail complaint
      | ok ts ↦ ping_all settings results_of ts timeout alive contact
    ]

-- "%.1f" % (total / (1024 * 1024)): the exact quotient, rounded half to even.
tenths : ℕ → ℕ
tenths total =
    let whole = total * 10 / 2 ^ 20 in
    let rest = total * 10 % 2 ^ 20 in
    if ltb (2 ^ 19) rest || rest == 2 ^ 19 && whole % 2 == 1 then whole + 1 else whole

unfoldable pub megabytes : ℕ → Text
unfolding tenths
megabytes total = to_decimal (tenths total / 10) ++ (b'.' ∷ (b'0' + tenths total % 10) ∷ [])

size_field : Option ℕ → Text
unfolding megabytes
size_field none = []
size_field (some total) = codes " db=" ++ (megabytes total ++ codes "MB")

connected_rows : Database → List (Channel × Option Wakeup)
unfolding list_connected
connected_rows (holds db) = list_connected db
connected_rows _ = []

wakeup_field : Option Wakeup → Text
wakeup_field none = []
wakeup_field (some w) = elim w.interval [ [] ↦ [] | ◌∷◌ c s ↦ codes " wakeup=" ++ w.interval ]

channel_line : Channel × Option Wakeup → Text
unfolding wakeup_field
channel_line (channel, w) =
    codes "id="
    ++ (channel.id ++ (codes " since=" ++ (to_text (optional channel.since) ++ wakeup_field w)))

status_head : Bool → List (Channel × Option Wakeup) → Option ℕ → List Text
unfolding size_field channel_line
status_head alive rows size =
    (codes "daemon="
      ++ ((if alive then codes "up" else codes "down")
          ++ (codes " channels=" ++ (to_decimal (length rows) ++ size_field size))))
    ∷ map channel_line rows

-- ",".join(parts)
unfoldable pub join_commas : List Text → Text
join_commas [] = []
join_commas (part ∷ []) = part
join_commas (part ∷ next ∷ parts) = part ++ (b',' ∷ join_commas (next ∷ parts))

summary : ℕ → List Text → Text
unfolding join_commas
summary alive [] = codes "summary alive=" ++ (to_decimal alive ++ codes " dead=0")
summary alive (d ∷ dead) =
    codes "summary alive="
    ++ (to_decimal alive
        ++ (codes " dead="
            ++ (to_decimal (length (d ∷ dead)) ++ (codes " dead_ids=" ++ join_commas (d ∷ dead)))))

answered : Latencies → List Text → ℕ
unfolding is_silent
answered results targets = length (filter (λ t. not (is_silent results t)) targets)

or_no_results : Option Latencies → Latencies
or_no_results none = []
or_no_results (some results) = results

liveness : List Text → Latencies → Outcome
unfolding probe_line summary answered silent_targets status_of
liveness targets results = exits (status_of (silent_targets results targets)) (
    (codes "liveness:" ∷ map (probe_line (codes "5") results) targets)
    ++ summary (answered results targets) (silent_targets results targets) ∷ [])

abbrev channel_id : Channel × Option Wakeup → Text
channel_id (channel, w) = channel.id

status_rows :
    (Request → Latencies) → Bool → List (Channel × Option Wakeup) → Option ℕ → Contact → Outcome
unfolding status_head liveness or_no_results ping_targets
status_rows results_of false rows size contact = exits 0 (status_head false rows size)
status_rows results_of true [] size contact = exits 0 (status_head true [] size)
status_rows results_of true (row ∷ rows) size contact =
    let live =
      liveness (map channel_id (row ∷ rows)) (or_no_results (ping_targets results_of contact)) in
    exits live.code (status_head true (row ∷ rows) size ++ live.lines)

-- `cmd_status`: `size` is the sum of the files' sizes, `none` for an OSError.
unfoldable pub cmd_status : (Request → Latencies) → Bool → Database → Option ℕ → Contact → Outcome
unfolding connected_rows status_rows
cmd_status results_of alive database size contact =
    status_rows results_of alive (connected_rows database) size contact
