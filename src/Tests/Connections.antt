-- ===== src/Tests/Connections.antt =====
-- Connections, calls and messages of a client, and errors of a failed connection.
use aiotruenas.Base.Assoc.{erase, insert, lookup}
use aiotruenas.Client.Calls.{start_call, start_on, unregister_call, begin_call}
use aiotruenas.Client.Messages.{run_hook, set_result, handle_rpc_response}
use aiotruenas.Base.{
  ◌≡◌, refl, none, some, [], ◌∷◌, ◌++◌, true, not, ◌&&◌, ℕ, if◌then◌else◌, String,
}
use aiotruenas.Value.{text, Value, str, int, Fields, end, field}
use aiotruenas.Base.Int.{pos}
use aiotruenas.Errors.Exceptions.{Class, class_of, is_subclass, closed, disconnect}
use aiotruenas.Errors.Classify.{classify_connect_exception, ConnectFailure, Errnos, Kind}
use aiotruenas.Errors.Laws.{classify_connect_exception-connection}
use aiotruenas.Client.State.{
  Client, Future, init, future, items, done, contains, is_current, without,
}
use aiotruenas.Client.Connection.{detach_connection, connected}
use aiotruenas.Client.Connection.Ending.{detach_connection-ends, terminators, uses}
use aiotruenas.Client.Invariant.{IsConsistent}
use aiotruenas.Client.Steps.{connects, begins, answers, Reach, here, next, Reach-IsConsistent}

abbrev pub online : Client
online = record init { ws = some 7; reader_task = some 7 }

-- A client with one call in flight.
abbrev pub calling : Client
calling = record online {
  next_id_value = 2;
  pending_calls = 1 ∷ [];
  futures = (1, Future.waiting) ∷ [];
}

abbrev pub reply : Fields
reply = field (text "id") (int (pos 1)) (field (text "result") (str "pong") end)

abbrev answered_state : Client
answered_state = record online { next_id_value = 2; futures = (1, Future.replied reply) ∷ [] }

abbrev pub quote : String → String
quote s = s

abbrev pub show : Value → String
show v = "value"

connection_open : Reach quote init online
unfolding connected
connection_open = next here (connects 7 refl)

pub call_begun : Reach quote init calling
unfolding begin_call start_call start_on insert
call_begun = next connection_open (begins "core.ping" none true none refl)

call_answered : Reach quote init answered_state
unfolding handle_rpc_response is_current contains future lookup set_result run_hook insert
    unregister_call without erase
call_answered = next call_begun (answers 7 1 reply refl)

Reach-IsConsistent_example : IsConsistent answered_state
Reach-IsConsistent_example = Reach-IsConsistent quote call_answered

detach_connection-ends_example :
    ((n : ℕ)
      → future (detach_connection "lost" calling).futures n ≡ (
          if contains n calling.pending_calls && not (done (future calling.futures n))
          then Future.failed (closed "lost" disconnect)
          else future calling.futures n))
    × ((q : ℕ)
        → items (detach_connection "lost" calling).queues q
          ≡ items calling.queues q ++ terminators (uses q calling.subscriptions))
    × ((detach_connection "lost" calling).pending_calls ≡ [])
    × ((detach_connection "lost" calling).subscriptions ≡ [])
detach_connection-ends_example = detach_connection-ends "lost" calling

abbrev pub linux : Errnos
linux = record {
  eai_noname = 2;
  eai_nodata = some 5;
  econnrefused = 111;
  etimedout = 110;
  ehostunreach = some 113;
}

abbrev not_found : ConnectFailure
not_found = record {
  kind = Kind.invalid_status 404;
  errno = none;
  message = "server rejected WebSocket connection: HTTP 404";
  type_name = "InvalidStatus";
}

classify_connect_exception-connection_example :
    is_subclass (class_of (classify_connect_exception linux not_found)) Class.connection ≡ true
classify_connect_exception-connection_example =
    classify_connect_exception-connection linux not_found
