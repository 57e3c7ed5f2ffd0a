-- ===== src/Client/State.antt =====
-- The state of a `TrueNASClient`, with the futures and queues that it shares with its callers.
use aiotruenas.Base.{
  ℕ, ◌+◌, String, Bool, true, false, ◌||◌, Option, none, some, List, [], ◌∷◌, ◌++◌, ◌==◌, nat_eq,
  if◌then◌else◌,
}
use aiotruenas.Base.Assoc.{Dict, lookup, insert}
use aiotruenas.Value.{Fields}
use aiotruenas.Errors.Exceptions.{ClientError}

-- The future of a call: `set_result`, `set_exception` and `cancel` end its wait.
pub data Future : Type 0 where
  waiting : Future
  replied : Fields → Future
  failed : ClientError → Future
  cancelled : Future

-- An item of a subscription queue; `terminator` is `SUBSCRIPTION_TERMINATOR`.
pub data Envelope : Type 0 where
  message : Fields → Envelope
  terminator : Envelope

-- The reply hook of a `subscribe` call: its queue and its event.
pub record Hook : Type 0 where
  pub queue : ℕ
  pub event : String

-- Connections, futures and queues are objects, here numbers. A call's future has the call's id,
-- which is never used again. `registered` holds the variable of that name of each `subscribe` call,
-- by the call's queue.
pub record Client : Type 0 where
  pub ws : Option ℕ
  pub private_methods_ws : Option ℕ
  pub reader_task : Option ℕ
  pub next_id_value : ℕ
  pub pending_calls : List ℕ
  pub reply_hooks : Dict ℕ Hook
  pub subscriptions : Dict String ℕ
  pub subscription_events : Dict String String
  pub private_methods : Bool
  pub private_methods_warned : Bool
  pub futures : Dict ℕ Future
  pub queues : Dict ℕ (List Envelope)
  pub registered : Dict ℕ String
  pub next_queue : ℕ

-- The state after `__init__`.
abbrev pub init : Client
init = record {
  ws = none;
  private_methods_ws = none;
  reader_task = none;
  next_id_value = 1;
  pending_calls = [];
  reply_hooks = [];
  subscriptions = [];
  subscription_events = [];
  private_methods = false;
  private_methods_warned = false;
  futures = [];
  queues = [];
  registered = [];
  next_queue = 0;
}

-- `_next_id`
unfoldable pub next_id : Client → ℕ × Client
next_id s = (s.next_id_value, record s { next_id_value = s.next_id_value + 1 })

abbrev future_or_waiting : Option Future → Future
future_or_waiting none = waiting
future_or_waiting (some f) = f

unfoldable pub future : Dict ℕ Future → ℕ → Future
future fs n = future_or_waiting (lookup n fs)

abbrev pub done : Future → Bool
done waiting = false
done _ = true

abbrev items_or_none : Option (List Envelope) → List Envelope
items_or_none none = []
items_or_none (some es) = es

unfoldable pub items : Dict ℕ (List Envelope) → ℕ → List Envelope
items qs q = items_or_none (lookup q qs)

-- `queue.put(e)`: the queues are unbounded, so it never waits.
unfoldable pub enqueue : ℕ → Envelope → Dict ℕ (List Envelope) → Dict ℕ (List Envelope)
unfolding items
enqueue q e qs = insert q (items qs q ++ e ∷ []) qs

-- `self._ws is ws`
unfoldable pub is_current : Option ℕ → ℕ → Bool
unfolding nat_eq
is_current none w = false
is_current (some v) w = v == w

-- `n in self._pending_calls`
unfoldable pub contains : ℕ → List ℕ → Bool
unfolding nat_eq
contains n [] = false
contains n (m ∷ ms) = n == m || contains n ms

-- `self._pending_calls.pop(n, None)`
unfoldable pub without : ℕ → List ℕ → List ℕ
unfolding nat_eq
without n [] = []
without n (m ∷ ms) = let rest = without n ms in if n == m then rest else m ∷ rest
