-- ===== src/Daemon/History.antt =====
-- What the daemon does to its database is a history of calls of the store, whatever the events: the
-- store's theorems hold of the daemon.
use sockpost.Common.{ℕ, ◌≡◌, refl, ap, ◌∙◌, List, [], ◌∷◌, ◌++◌, Option, none, some, subst}
use sockpost.Common.Int.{pos}
use sockpost.Store.Tables.{Db, Message, init_schema}
use sockpost.Store.Messages.{get_message}
use sockpost.Store.Operations.{Operation, apply, run}
use sockpost.Store.Validity.{IsValid, run-init_schema-IsValid}
use sockpost.Store.History.{Succeeds}
use sockpost.Store.History.Calls.{get_message-run}
use sockpost.Daemon.Scheduler.{Round, waits, drops, calls, round}
use sockpost.Daemon.State.{Daemon, Moment, Settings, Key, key_instance, Callback}
use sockpost.Daemon.Loop.{Event, start, run_events}
use sockpost.Daemon.Walk.{Laws, Guards}
use sockpost.Daemon.Walk.Events.{run_events-start-Holds, run_events-Holds}

abbrev pub Evolves : Db → Db → Type 0
Evolves before db = (os : List Operation) × (run os before ≡ db)

run-snoc :
    (os : List Operation) (o : Operation) (db : Db) → run (os ++ o ∷ []) db ≡ apply o (run os db)
unfolding run
run-snoc [] o db = refl
run-snoc (p ∷ os) o db = run-snoc os o (apply p db)

module _ (before : Db) where
  round-Evolves :
      (inflight : List ℕ) (db : Db) (r : Round Key Callback)
      → Evolves before db
      → Guards (λ inflight s db. Evolves before db) inflight db r
  round-Evolves inflight db waits g = tt
  round-Evolves inflight db (drops s) g = g
  round-Evolves inflight db (calls c s) g = g

  history_laws : Laws (λ inflight s db. Evolves before db)
  history_laws = record {
    stores = λ o db (os, q). (os ++ o ∷ [], run-snoc os o before ∙ ap (apply o) q);
    arms = λ now delay c inflight s g. g;
    hands = λ now delay id channel inflight s g. g;
    forgets = λ id inflight s g. g;
    stops = λ channel inflight s g. g;
    leaves = λ gone inflight s g. g;
    resets = λ gone inflight s g. g;
    lacks = λ id inflight s e g. g;
    turns = λ now inflight s db g. round-Evolves inflight db (round now s) g;
  }

-- Whatever the events, the database of the daemon is the one it opened after a history of store calls.
pub run_events-start-Evolves :
    (w : Moment) (settings : Settings) (file : Option Db) (es : List (Moment × Event))
    → Evolves (init_schema file) (run_events es (start w settings file)).db
unfolding run
run_events-start-Evolves w settings file es =
    run_events-start-Holds (history_laws (init_schema file)) w settings file es ([], refl)

-- On a new file, the database is well formed after any events.
pub run_events-start-IsValid :
    (w : Moment) (settings : Settings) (es : List (Moment × Event))
    → IsValid (run_events es (start w settings none)).db
run_events-start-IsValid w settings es =
    let (os, q) = run_events-start-Evolves w settings none es in
    subst IsValid q (run-init_schema-IsValid os)

-- A message that can be read by its id in a well-formed database can be read after any further
-- events, with its content, and with its resolution once it has one.
pub get_message-run_events :
    (es : List (Moment × Event)) (d : Daemon) (id : ℕ) (m : Message)
    → IsValid d.db
    → get_message (pos id) d.db ≡ some m
    → (m' : Message) × (get_message (pos id) (run_events es d).db ≡ some m') × Succeeds m m'
unfolding run
get_message-run_events es d id m v q =
    let (os, r) = run_events-Holds (history_laws d.db) es d ([], refl) in
    subst (λ db. (m' : Message) × (get_message (pos id) db ≡ some m') × Succeeds m m') r
      (get_message-run os d.db id m v q)
