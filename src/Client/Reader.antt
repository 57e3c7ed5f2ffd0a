-- ===== src/Client/Reader.antt =====
-- `_read_loop`: the reader of a connection, on the messages that arrive.
pub mod Ended
use aiotruenas.Base.{ℕ, String, Option, none, some, List, [], ◌∷◌}
use aiotruenas.Value.{Value, obj, Fields}
use aiotruenas.Client.State.{Client}
use aiotruenas.Client.Connection.{teardown_connection}
use aiotruenas.Client.Messages.{Routed, routed, key_error, route_message}

-- `json.loads` of a message: a value, a JSONDecodeError, or another exception by its `str`, such as a
-- RecursionError.
pub data Decoded : Type 0 where
  json : Value → Decoded
  undecodable : Decoded
  unexpected : String → Decoded

-- A message, with what other tasks do before it arrives and while its routing waits for the lock,
-- and the `str` of the exception if its routing raises one.
pub record Arrival : Type 0 where
  pub decoded : Decoded
  pub before : Client → Client
  pub meanwhile : Client → Client
  pub error_text : String

-- Why the loop is left: the connection ended or the reader was cancelled, a message could not be
-- read, or its routing raised.
pub data Ending : Type 0 where
  disconnected : Ending
  unreadable : Ending
  misrouted : Ending

-- One round: the loop goes on, or is left with the `str` of an exception.
pub data Read : Type 0 where
  goes_on : Client → Read
  left : Ending → String → Client → Read

-- The end of `_parse_message`: only a dict is a message.
unfoldable pub dict_or_none : Value → Option Fields
dict_or_none (obj candidate) = some candidate
dict_or_none v = none

read_routed : String → Routed → Read
read_routed why (routed s) = goes_on s
read_routed why (key_error s) = left misrouted why s

route_parsed : ℕ → Arrival → Option Fields → Client → Read
unfolding read_routed
route_parsed w a none s = goes_on s
route_parsed w a (some candidate) s =
    read_routed a.error_text (route_message w candidate a.meanwhile s)

read_decoded : ℕ → Arrival → Decoded → Client → Read
unfolding dict_or_none route_parsed
read_decoded w a (json v) s = route_parsed w a (dict_or_none v) s
read_decoded w a undecodable s = goes_on s
read_decoded w a (unexpected why) s = left unreadable why s

unfoldable pub read_message : ℕ → Arrival → Client → Read
unfolding read_decoded
read_message w a s = read_decoded w a a.decoded (a.before s)

-- The rest of the loop, and the teardown. `last` is what other tasks do before the teardown.
abbrev and_then : ℕ → (Client → Client) → Read → (Client → Ending × Client) → Ending × Client
and_then w last (goes_on s) next = next s
and_then w last (left ending why s) next = (ending, teardown_connection w (some why) (last s))

-- The loop over the messages up to the end of the connection, for which `cause` is `str(cause)`.
unfoldable pub read_loop :
    ℕ → List Arrival → (Client → Client) → Option String → Client → Ending × Client
unfolding read_message
read_loop w [] last cause s = (disconnected, teardown_connection w cause (last s))
read_loop w (a ∷ arrivals) last cause s =
    and_then w last (read_message w a s) (read_loop w arrivals last cause)
