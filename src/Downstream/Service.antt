-- ===== src/Downstream/Service.antt =====
-- `Service` of backend/internal/downstream/pusher.go: `Start`, `Stop`, `Reload`, `Notify`, and one
-- round of `runPusher`. A pusher is a row with its channel, oldest event first.
use open_scanner.Base.{
  ℕ, Bool, true, not, Option, none, some, String, List, [], ◌∷◌, ◌++◌, if◌then◌else◌, length, ltb,
  map,
}
use open_scanner.Ingest.Upload.{CallEvent}
use open_scanner.Downstream.{Downstream, PushJson, parse_push_grants, is_push_granted}
use open_scanner.Downstream.Push.{PushEnv, PushEnd, push_with_retry, log_level}

abbrev pub channel_size : ℕ
channel_size = 1000

pub record Pusher : Type 0 where
  pub row : Downstream
  pub channel : List CallEvent

pub record Service : Type 0 where
  -- whether `Start` was called, so that there is a context
  pub has_context : Bool
  pub pushers : List Pusher
  -- what was pushed or given up, and the levels of the log rows, in order
  pub ended : List (ℕ × CallEvent × PushEnd)
  pub logs : List String

-- The rows are those of `ListActiveDownstreams`; `none` is a failing query, after which the pushers
-- that were there remain.
unfoldable pub start : Service → Option (List Downstream) → Service
start s none = record s { has_context = true }
start s (some rows) = record s {
  has_context = true;
  pushers = map (λ row. record { row = row; channel = [] }) rows;
}

-- Every goroutine has ended when it returns; what was in the channels is lost.
unfoldable pub stop : Service → Service
stop s = record s { pushers = [] }

unfoldable pub reload : Service → Option (List Downstream) → Service
unfolding stop start
reload s rows = if not s.has_context then s else start (stop s) rows

-- The send does not block: a full channel drops the event.
abbrev pub offer : CallEvent → Pusher → Pusher
offer e p =
    if ltb (length p.channel) channel_size then record p { channel = p.channel ++ (e ∷ []) } else p

unfoldable pub notify_all : CallEvent → Service → Service
notify_all e s = record s { pushers = map (offer e) s.pushers }

abbrev pub logged : Option String → List String → List String
logged none logs = logs
logged (some level) logs = logs ++ (level ∷ [])

-- What a pusher does with an event that it takes from its channel.
unfoldable pub handle_event : PushEnv → PushJson → Service → Downstream → CallEvent → Service
unfolding is_push_granted parse_push_grants push_with_retry
handle_event env j s row e =
    if not (is_push_granted (parse_push_grants j row.systems_json) e.system_id e.talkgroup_id)
    then s
    else let end = (push_with_retry env row e).0 in
      record s { ended = s.ended ++ ((row.id, e, end) ∷ []); logs = logged (log_level end) s.logs }
