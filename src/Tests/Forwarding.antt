-- ===== src/Tests/Forwarding.antt =====
-- Forwards of daemon.py on concrete inputs.
use sockpost.Common.{◌≡◌, refl, ◌∷◌, [], none, some, codes, text_eq, text_instance}
use sockpost.Common.Int.{pos}
use sockpost.Common.Dict.{get}
use sockpost.Common.Result.{ok}
use sockpost.Python.Space.{strip}
use sockpost.Python.Decimal.{to_decimal}
use sockpost.Python.Json.{dumps_text}
use sockpost.Python.Value.{Request, text, int, field_of, to_int, to_text}
use sockpost.Protocol.Channel.{validate_channel}
use sockpost.Protocol.Forward.{
  forward_body, forward_header, parse_forward_header, split_forward, forward_hops,
}
use sockpost.Store.Tables.{Db, Message, acked}
use sockpost.Store.Messages.{get_message, new_message}
use sockpost.Daemon.Requests.{Copy, checked_forward, copy_of, utf8_size}
use sockpost.Daemon.Forwarding.{IsCopy, checked_forward-IsCopy}
use sockpost.Tests.Daemon.{settings}

abbrev source : Message
source = record (new_message 1 (codes "t1") (codes "worker") (codes "planner") (codes "go")) {
  state = acked;
  resolved_at = some (codes "t2");
}

abbrev archived : Db
archived = record {
  messages = source ∷ [];
  last_id = 1;
  channels = [];
  wakeups = [];
  version = codes "1";
}

abbrev forwards : Request
forwards =
    (codes "from", text (codes "worker"))
    ∷ (codes "to", text (codes "archive"))
    ∷ (codes "src_id", int (pos 1))
    ∷ []

abbrev copy : Copy
copy = record {
  mail = record {
    sender = codes "worker";
    recipient = codes "archive";
    body = forward_body (codes "go") (codes "planner") (codes "worker") 1 (codes "t1") 1 none;
  };
  source_id = 1;
  hops = 1;
}

forwards_checked : checked_forward settings forwards archived ≡ ok copy
unfolding checked_forward field_of get text_eq validate_channel strip to_text to_int get_message
    forward_hops split_forward parse_forward_header copy_of forward_body forward_header utf8_size
    dumps_text to_decimal
forwards_checked = refl

checked_forward-IsCopy_example : IsCopy settings forwards archived copy
checked_forward-IsCopy_example =
    checked_forward-IsCopy settings forwards archived copy forwards_checked
