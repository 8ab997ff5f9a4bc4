-- ===== src/Tests/Store.antt =====
-- store.py on concrete inputs.
use sockpost.Common.{◌≡◌, refl, true, [], ◌∷◌, List, none, some, codes, text_eq, text_lt}
use sockpost.Common.Int.{pos}
use sockpost.Store.Tables.{Db, init_schema, Message}
use sockpost.Store.Messages.{
  get_message, pending_ids, new_message, insert_message, reset_pending, expire_orphans, ack_message,
  mark_delivered,
}
use sockpost.Store.Channels.{set_channel_state}
use sockpost.Store.Operations.{
  Operation, inserts, acks, delivers, expires, sets_channel, resets, apply, run,
}
use sockpost.Store.Validity.{IsValid, run-init_schema-IsValid}
use sockpost.Store.Mailboxes.{view}
use sockpost.Store.Mailboxes.Refinement.{view-run, steps}

abbrev opening : List Operation
opening =
    sets_channel (codes "t0") (codes "worker") true
    ∷ inserts (codes "t1") (codes "worker") (codes "planner") (codes "go")
    ∷ inserts (codes "t2") (codes "ghost") (codes "planner") (codes "hello")
    ∷ []

abbrev closing : List Operation
closing =
    delivers (codes "t3") 1
    ∷ acks (codes "t4") (pos 1) (codes "worker")
    ∷ expires (codes "t9") (codes "t5")
    ∷ resets (codes "worker")
    ∷ []

opened : Db
opened = run opening (init_schema none)

opened-IsValid : IsValid opened
unfolding opened
opened-IsValid = run-init_schema-IsValid opening

run-init_schema-IsValid_example : IsValid (run closing (init_schema none))
run-init_schema-IsValid_example = run-init_schema-IsValid closing

abbrev first_message : Message
first_message = new_message 1 (codes "t1") (codes "worker") (codes "planner") (codes "go")

first_found : get_message (pos 1) opened ≡ some first_message
unfolding get_message opened run apply init_schema text_eq insert_message set_channel_state
first_found = refl

view-run_example : view (run closing opened) ≡ steps closing (view opened)
view-run_example = view-run closing opened opened-IsValid

-- The acknowledged message and the orphan leave the queues.
nothing_pending :
    (pending_ids (codes "worker") (run closing opened) ≡ [])
    × (pending_ids (codes "ghost") (run closing opened) ≡ [])
unfolding pending_ids opened run apply init_schema text_eq text_lt reset_pending expire_orphans
    ack_message mark_delivered insert_message set_channel_state
nothing_pending = (refl, refl)
