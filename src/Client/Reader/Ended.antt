-- ===== src/Client/Reader/Ended.antt =====
-- The reader ends with its connection detached.
use aiotruenas.Base.{
  ℕ, String, false, ◌≡◌, refl, Option, none, some, List, [], ◌∷◌, Bool-cases, inl, inr,
}
use aiotruenas.Value.{Fields}
use aiotruenas.Client.State.{Client, is_current}
use aiotruenas.Client.Connection.{teardown_connection, detach_connection}
use aiotruenas.Client.Invariant.{IsConsistent, teardown_connection-IsConsistent}
use aiotruenas.Client.Invariant.Routing.{route_message-Succeeds}
use aiotruenas.Client.Reader.{
  Arrival, Decoded, json, undecodable, unexpected, Ending, disconnected, unreadable, dict_or_none,
  read_routed, route_parsed, read_decoded, read_message, and_then, read_loop,
}

-- What other tasks do keeps the tables consistent.
abbrev pub Keeps : (Client → Client) → Type 0
Keeps change = (s : Client) → IsConsistent s → IsConsistent (change s)

abbrev pub AllKeep : List Arrival → Type 0
AllKeep [] = Unit
AllKeep (a ∷ arrivals) = Keeps a.before × Keeps a.meanwhile × AllKeep arrivals

teardown_connection-ws :
    (w : ℕ) (cause : Option String) (s : Client)
    → is_current (teardown_connection w cause s).ws w ≡ false
unfolding teardown_connection detach_connection is_current
teardown_connection-ws w cause s = elim (Bool-cases (is_current s.ws w)) [
  | inl current ↦ rw current
  | inr other ↦ rw other other
]

-- What the messages alone decide: the loop runs to the end of the connection, unless a message
-- cannot be read.
abbrev pub ending_after : Decoded → Ending → Ending
ending_after (unexpected why) later = unreadable
ending_after _ later = later

abbrev pub ending_of : List Arrival → Ending
ending_of [] = disconnected
ending_of (a ∷ arrivals) = ending_after a.decoded (ending_of arrivals)

-- How the reader has ended, for an ending that is due.
abbrev pub HasEnded : ℕ → Ending → Ending × Client → Type 0
HasEnded w due (ending, t) = (ending ≡ due) × IsConsistent t × (is_current t.ws w ≡ false)

module _ (w : ℕ) (last : Client → Client) (keeps : Keeps last) where
  torn_down :
      (ending : Ending) (cause : Option String) {s : Client}
      → IsConsistent s
      → HasEnded w ending (ending, teardown_connection w cause (last s))
  torn_down ending cause {s} c = (
    refl,
    teardown_connection-IsConsistent (keeps s c) w cause,
    teardown_connection-ws w cause (last s),
  )

  route_parsed-HasEnded :
      (a : Arrival) (o : Option Fields) (next : Client → Ending × Client) (due : Ending)
      {s : Client}
      → Keeps a.meanwhile
      → IsConsistent s
      → ((t : Client) → IsConsistent t → HasEnded w due (next t))
      → HasEnded w due (and_then w last (route_parsed w a o s) next)
  unfolding route_parsed read_routed
  route_parsed-HasEnded a none next due {s} meanwhile c rest = rest s c
  route_parsed-HasEnded a (some candidate) next due {s} meanwhile c rest =
      let (t, read, kept) = route_message-Succeeds w a.meanwhile meanwhile candidate c in
      rw read (rest t kept)

  read_decoded-HasEnded :
      (a : Arrival) (d : Decoded) (next : Client → Ending × Client) (due : Ending) {s : Client}
      → Keeps a.meanwhile
      → IsConsistent s
      → ((t : Client) → IsConsistent t → HasEnded w due (next t))
      → HasEnded w (ending_after d due) (and_then w last (read_decoded w a d s) next)
  unfolding read_decoded
  read_decoded-HasEnded a (json v) next due meanwhile c rest =
      route_parsed-HasEnded a (dict_or_none v) next due meanwhile c rest
  read_decoded-HasEnded a undecodable next due {s} meanwhile c rest = rest s c
  read_decoded-HasEnded a (unexpected why) next due meanwhile c rest =
      torn_down unreadable (some why) c

  -- From a consistent state, whatever messages arrive and however the connection ends, if the other
  -- tasks keep the tables consistent meanwhile: no routing ends the reader, only the end of the
  -- connection or a message that cannot be read; after it the tables are consistent and its
  -- connection is not the current one.
  pub read_loop-ended :
      (arrivals : List Arrival) (cause : Option String) (s : Client)
      → AllKeep arrivals
      → IsConsistent s
      → HasEnded w (ending_of arrivals) (read_loop w arrivals last cause s)
  unfolding read_loop read_message
  read_loop-ended [] cause s all c = torn_down disconnected cause c
  read_loop-ended (a ∷ arrivals) cause s (before, meanwhile, all) c =
      read_decoded-HasEnded a a.decoded (read_loop w arrivals last cause) (ending_of arrivals)
        meanwhile (before s c) (λ t kept. read_loop-ended arrivals cause t all kept)
