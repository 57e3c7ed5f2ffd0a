-- ===== src/Client/Requests/Unregistered.antt =====
-- A call leaves nothing behind.
use aiotruenas.Base.{
  ℕ, ◌≤◌, ◌<◌, String, Bool, true, false, ◌≡◌, refl, Option, none, some, arith, nat_eq, Bool-cases,
  inl, inr,
}
use mathlib.Core.Path.{subst}
use aiotruenas.Base.Assoc.{lookup, lookup-erase}
use aiotruenas.Value.{Value}
use aiotruenas.Client.State.{Hook, Client, contains, is_current, next_id}
use aiotruenas.Client.Connection.{close_websocket, detach_connection}
use aiotruenas.Errors.Exceptions.{ClientError, closed, Phase}
use aiotruenas.Client.Calls.{
  raised, close_message, end_wait, Begun, refused, unserializable, sending, Sent, sent, send_failed,
  aborted, unregister_call, other_connection, start_call, start_on, begin_call, finish_send,
  register_call,
}
use aiotruenas.Client.Invariant.{
  IsConsistent, is_some, contains-without, close_websocket-IsConsistent,
  unregister_call-IsConsistent,
}
use aiotruenas.Client.Invariant.Calls.{begin_call-IsConsistent, end_wait-IsConsistent}
use aiotruenas.Client.Requests.{
  Trip, close_failed, finish_call, after_send, wait_on, send_on, call_on_connection,
}

-- What other tasks do keeps the tables consistent and gives no id out again.
abbrev pub IsBenign : (Client → Client) → Type 0
IsBenign change =
    (s : Client)
    → IsConsistent s
    → IsConsistent (change s) × (s.next_id_value ≤ (change s).next_id_value)

-- The call of this id is neither pending nor has it a hook.
abbrev pub IsUntracked : ℕ → Client → Type 0
IsUntracked n s = (contains n s.pending_calls ≡ false) × (is_some (lookup n s.reply_hooks) ≡ false)

unregister_call-IsUntracked : (n : ℕ) (s : Client) → IsUntracked n (unregister_call n s)
unfolding unregister_call
unregister_call-IsUntracked n s = (
  ground (arith, contains-without n n s.pending_calls),
  ground (arith, lookup-erase n n s.reply_hooks),
)

close_websocket-IsUntracked :
    (n w : ℕ) (why : String) (s : Client)
    → IsUntracked n s
    → IsUntracked n (close_websocket w why s)
unfolding close_websocket detach_connection contains lookup
close_websocket-IsUntracked n w why s untracked = elim (Bool-cases (is_current s.ws w)) [
  | inl current ↦ rw current (refl, refl)
  | inr other ↦ rw other untracked
]

IsConsistent-IsUntracked : {s : Client} → IsConsistent s → IsUntracked s.next_id_value s
IsConsistent-IsUntracked {s} c = (
  ground (arith, c.pending_old s.next_id_value),
  ground (arith, c.pending_old s.next_id_value, c.hooks_pending s.next_id_value),
)

-- Nor does it register again the call of an id that was given out.
abbrev pub KeepsUntracked : (Client → Client) → Type 0
KeepsUntracked change =
    (n : ℕ) (s : Client)
    → IsConsistent s
    → n < s.next_id_value
    → IsUntracked n s
    → IsUntracked n (change s)

-- What is known of the other tasks.
abbrev pub IsOrderly : Trip → Type 0
IsOrderly t =
    IsBenign t.during_send
    × IsBenign t.during_wait
    × IsBenign t.during_lock
    × IsBenign t.during_close
    × KeepsUntracked t.during_close

next_id-send_failed :
    (w n : ℕ) (why : String) (s : Client)
    → (close_websocket w why (unregister_call n s)).next_id_value ≡ s.next_id_value
unfolding close_websocket detach_connection unregister_call
next_id-send_failed w n why s = elim (Bool-cases (is_current s.ws w)) [
  | inl current ↦ rw current refl
  | inr other ↦ rw other refl
]

-- What is known once the request is on its way, or refused.
abbrev IsBegun : Client → Begun × Client → Type 0
IsBegun s (sending w n, t) = (n ≡ s.next_id_value) × (n < t.next_id_value)
IsBegun s (begun, t) = IsUntracked s.next_id_value t

module _ (repr : String → String) (format : Value → String) where
  start_call-IsBegun :
      (o : Option ℕ) (serializable : Bool) (hook : Option Hook) {s : Client}
      → IsConsistent s
      → IsBegun s (start_call o serializable hook s)
  unfolding start_call start_on next_id register_call
  start_call-IsBegun none serializable hook c = IsConsistent-IsUntracked c
  start_call-IsBegun (some w) true hook c = (refl, omega arith)
  start_call-IsBegun (some w) false hook c = IsConsistent-IsUntracked c

  begin_call-IsBegun :
      (method : String) (expected : Option ℕ) (serializable : Bool) (hook : Option Hook)
      {s : Client}
      → IsConsistent s
      → IsBegun s (begin_call repr method expected serializable hook s)
  unfolding begin_call
  begin_call-IsBegun method expected serializable hook {s} c =
      elim (Bool-cases (other_connection expected s.ws)) [
        | inl other ↦ rw other (IsConsistent-IsUntracked c)
        | inr same ↦ rw same (start_call-IsBegun s.ws serializable hook c)
      ]

  -- The close after the wait, with what other tasks do before and after it.
  close_failed-IsConsistent :
      (w : ℕ) (message : Option String) (t : Trip) {s : Client}
      → IsBenign t.during_lock
      → IsBenign t.during_close
      → IsConsistent s
      → IsConsistent (close_failed w message t s)
  unfolding close_failed
  close_failed-IsConsistent w none t lock close c = c
  close_failed-IsConsistent w (some why) t {s} lock close c =
      let detached = close_websocket-IsConsistent (lock s c).0 w why in
      elim (Bool-cases t.lock_cancelled) [
        | inl cut ↦ rw cut detached
        | inr waited ↦ rw waited (close (close_websocket w why (t.during_lock s)) detached).0
      ]

  finish_call-IsUntracked :
      (method : String) (w n : ℕ) (t : Trip) {s : Client}
      → IsBenign t.during_lock
      → IsBenign t.during_close
      → IsConsistent s
      → n < s.next_id_value
      → IsConsistent (finish_call repr format method w n t s).1
        × IsUntracked n (finish_call repr format method w n t s).1
  unfolding finish_call
  finish_call-IsUntracked method w n t {s} lock close c old = (
    unregister_call-IsConsistent
        (close_failed-IsConsistent w _ t lock close (end_wait-IsConsistent c n t.waited old)) n,
    unregister_call-IsUntracked n
        (close_failed w (close_message repr method t.waited) t (end_wait n t.waited s)),
  )

  after_send-IsUntracked :
      (n : ℕ) (t : Trip) (e : ClientError) {s : Client}
      → IsBenign t.during_close
      → KeepsUntracked t.during_close
      → IsConsistent s
      → n < s.next_id_value
      → IsUntracked n s
      → IsConsistent (after_send t (raised e) s).1 × IsUntracked n (after_send t (raised e) s).1
  after_send-IsUntracked n t e {s} close keeps c old untracked =
      ((close s c).0, keeps n s c old untracked)

  -- A request that was sent, or not.
  sent_on-IsUntracked :
      (method : String) (w n : ℕ) (t : Trip) (o : Sent) {s : Client}
      → IsOrderly t
      → IsConsistent s
      → n < s.next_id_value
      → IsConsistent (wait_on repr format method w n t (finish_send w n o s)).1
        × IsUntracked n (wait_on repr format method w n t (finish_send w n o s)).1
  unfolding wait_on finish_send
  sent_on-IsUntracked method w n t sent {s} (send, wait, lock, close, keeps) c old =
      let (kept, later) = wait s c in
      finish_call-IsUntracked method w n t lock close kept (omega arith)
  sent_on-IsUntracked method w n t (send_failed why) {s} (send, wait, lock, close, keeps) c old =
      after_send-IsUntracked n t (closed why Phase.call) close keeps
        (close_websocket-IsConsistent (unregister_call-IsConsistent c n) w why)
        (rw (next_id-send_failed w n why s) old)
        (close_websocket-IsUntracked n w why (unregister_call n s)
          (unregister_call-IsUntracked n s))
  sent_on-IsUntracked method w n t aborted {s} orderly c old =
      (unregister_call-IsConsistent c n, unregister_call-IsUntracked n s)

  send_on-IsUntracked :
      (method : String) (t : Trip) (s : Client) (begun : Begun × Client)
      → IsOrderly t
      → IsConsistent begun.1
      → IsBegun s begun
      → IsConsistent (send_on repr format method t begun).1
        × IsUntracked s.next_id_value (send_on repr format method t begun).1
  unfolding send_on
  send_on-IsUntracked method t s (refused e, r) orderly c begun = (c, begun)
  send_on-IsUntracked method t s (unserializable, r) orderly c begun = (c, begun)
  send_on-IsUntracked method t s (sending w n, r) orderly c (same, old) =
      let (kept, later) = orderly.0 r c in
      let (consistent, untracked) =
        sent_on-IsUntracked method w n t t.sent orderly kept (omega arith) in
      (
        consistent,
        subst (λ k. IsUntracked k (send_on repr format method t (sending w n, r)).1) same untracked,
      )

  -- From a consistent state, however a call ends, if the other tasks keep the tables consistent
  -- meanwhile and no id is given out twice: the tables are consistent after it, and the id that the
  -- call took is neither pending nor has it a reply hook.
  pub call_on_connection-IsUntracked :
      (method : String) (expected : Option ℕ) (hook : Option Hook) (t : Trip) (s : Client)
      → IsOrderly t
      → IsConsistent s
      → IsConsistent (call_on_connection repr format method expected hook t s).1
        × IsUntracked s.next_id_value (call_on_connection repr format method expected hook t s).1
  unfolding call_on_connection
  call_on_connection-IsUntracked method expected hook t s orderly c =
      send_on-IsUntracked method t s (begin_call repr method expected t.serializable hook s) orderly
        (begin_call-IsConsistent repr c method expected t.serializable hook)
        (begin_call-IsBegun method expected t.serializable hook c)
