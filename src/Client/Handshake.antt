-- ===== src/Client/Handshake.antt =====
-- `connect` from its socket on: the retry of the handshake, the login and the private-methods option
-- before the reader runs, and the address.
pub mod Outcome
use aiotruenas.Base.{
  ℕ, String, Bool, true, false, ◌||◌, Option, none, some, List, [], ◌∷◌, if◌then◌else◌, Result, ok,
  raise,
}
use Prim.Native.String.{◌++◌ as ◌<>◌}
use aiotruenas.Base.Int.{pos}
use aiotruenas.Value.{Value, int, obj, Fields, py_eq}
use aiotruenas.Value.Text
use aiotruenas.Value.Text.{codes}
use aiotruenas.Errors.Exceptions.{ClientError, plain, closed, login, call_timeout}
use aiotruenas.Errors.Classify.{Errnos, ConnectFailure, classify_connect_exception, member_of}
use aiotruenas.Rpc.{Failure, error, exception}
use aiotruenas.Client.State.{Client, next_id}
use aiotruenas.Client.Connection.{login_error, private_methods_reply, connected}

-- `__init__` on the host: the URL, or none for the ValueError. `decimal` is `str` of an int.
netloc : (ℕ → String) → String → Option ℕ → String
netloc decimal host none = host
netloc decimal host (some port) = host <> ":" <> decimal port

unfoldable pub url_of : (ℕ → String) → String → Bool → Option ℕ → Option String
unfolding netloc Text.has_fragment
url_of decimal host use_tls port =
    if Text.has_fragment (codes "://") (codes host) || Text.has_fragment (codes "/") (codes host)
    then none
    else some
        ((if use_tls then "wss" else "ws") <> "://" <> netloc decimal host port <> "/api/current")

-- What an attempt to open the WebSocket comes to: a connection, a TimeoutError, another failure that
-- is classified, or another exception.
pub data Attempt : Type 0 where
  opened : ℕ → Attempt
  timed_out : ConnectFailure → Attempt
  unreachable : ConnectFailure → Attempt
  abandoned : String → Attempt

last_attempt : Errnos → Attempt → Result Failure ℕ
last_attempt E (opened w) = ok w
last_attempt E (timed_out exc) = raise (error (classify_connect_exception E exc))
last_attempt E (unreachable exc) = raise (error (classify_connect_exception E exc))
last_attempt E (abandoned why) = raise (exception why)

-- `_open_websocket`: its two rounds.
unfoldable pub open_websocket : Errnos → Attempt → Attempt → Result Failure ℕ
unfolding last_attempt
open_websocket E (timed_out exc) second = last_attempt E second
open_websocket E first second = last_attempt E first

-- A message before the reader runs, decoded if it is a text of JSON.
abbrev pub Frame : Type 0
Frame = Option Value

-- How the wait for a message ends otherwise: a TimeoutError, a lost connection with `str(exc)`, or
-- another exception.
pub data Interruption : Type 0 where
  timeout : Interruption
  lost : String → Interruption
  interrupted : String → Interruption

-- `_await_response`: the first dict with the id, if it arrives.
is_reply : ℕ → Frame → Option Fields
unfolding member_of py_eq
is_reply rpc_id (some (obj candidate)) =
    if py_eq (member_of (obj candidate) "id") (int (pos rpc_id)) then some candidate else none
is_reply rpc_id frame = none

abbrev or_later : Option Fields → Option Fields → Option Fields
or_later none later = later
or_later (some reply) later = some reply

unfoldable pub await_response : ℕ → List Frame → Option Fields
unfolding is_reply
await_response rpc_id [] = none
await_response rpc_id (frame ∷ frames) =
    or_later (is_reply rpc_id frame) (await_response rpc_id frames)

-- What arrives after the request, and what ends the wait if no reply is among it. A failed send is
-- an interruption before any message.
pub record Exchange : Type 0 where
  pub frames : List Frame
  pub ending : Interruption

interruption_error : String → Interruption → Failure
interruption_error what timeout =
    error (plain call_timeout ("timed out while waiting for " <> what <> " response"))
interruption_error what (lost why) = error (closed why login)
interruption_error what (interrupted why) = exception why

-- `_request_before_reader`, with the id that it took.
unfoldable pub request_before_reader : String → ℕ → Exchange → Result Failure Fields
unfolding await_response interruption_error
request_before_reader what rpc_id e = elim (await_response rpc_id e.frames) [
  | none ↦ raise (interruption_error what e.ending)
  | some reply ↦ ok reply
]

-- What the server and the other tasks do during a `connect`: the attempts to open a socket, the
-- exchanges for the ids of the requests, and the changes before the socket is open, the login is
-- answered, and the option is.
pub record Setup : Type 0 where
  pub first : Attempt
  pub second : Attempt
  pub login_exchange : ℕ → Exchange
  pub option_exchange : ℕ → Exchange
  pub during_open : Client → Client
  pub during_login : Client → Client
  pub during_option : Client → Client

-- `format` is `str`.
module _ (E : Errnos) (format : Value → String) where
  checked : Option ClientError → Result Failure (Unit {0})
  checked none = ok tt
  checked (some e) = raise (error e)

  -- `_login`
  unfoldable pub login_with : Result Failure Fields → Result Failure (Unit {0})
  unfolding checked login_error
  login_with (ok response) = checked (login_error format response)
  login_with (raise why) = raise why

  -- `_send_private_methods_option` after its request, and the end of `connect`.
  with_option : ℕ → Result Failure Fields → Client → Result Failure (Unit {0}) × Client
  unfolding private_methods_reply connected
  with_option w (ok response) s = (ok tt, connected w (private_methods_reply response s))
  with_option w (raise why) s = (raise why, s)

  -- `connect` once the login was accepted, if private methods are wanted or not.
  option_stage : Setup → ℕ → Bool → Client → Result Failure (Unit {0}) × Client
  unfolding with_option request_before_reader next_id connected
  option_stage p w true s =
      with_option w
        (request_before_reader "core.set_options" (next_id s).0 (p.option_exchange (next_id s).0))
        (p.during_option (next_id s).1)
  option_stage p w false s = (ok tt, connected w s)

  logged_in : Setup → ℕ → Result Failure (Unit {0}) → Client → Result Failure (Unit {0}) × Client
  unfolding option_stage
  logged_in p w (raise why) s = (raise why, s)
  logged_in p w (ok t) s = option_stage p w s.private_methods s

  with_socket : Setup → Result Failure ℕ → Client → Result Failure (Unit {0}) × Client
  unfolding logged_in login_with request_before_reader next_id
  with_socket p (raise why) s = (raise why, s)
  with_socket p (ok w) s =
      logged_in p w
        (login_with (request_before_reader "login" (next_id s).0 (p.login_exchange (next_id s).0)))
        (p.during_login (next_id s).1)

  unfoldable pub connect_on : Option ℕ → Setup → Client → Result Failure (Unit {0}) × Client
  unfolding with_socket open_websocket
  connect_on (some w) p s = (ok tt, s)
  connect_on none p s = with_socket p (open_websocket E p.first p.second) (p.during_open s)

  -- `connect`
  unfoldable pub connect : Setup → Client → Result Failure (Unit {0}) × Client
  unfolding connect_on
  connect p s = connect_on s.ws p s
