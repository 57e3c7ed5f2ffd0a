-- ===== src/Client/Subscriptions/Draining.antt =====
-- Reading a subscription queue keeps its order and loses no message.
use aiotruenas.Base.{Bool, true, false, ◌≡◌, refl, ap, List, [], ◌∷◌, ◌++◌, ◌⊎◌, inl, inr}
use aiotruenas.Value.{Fields}
use aiotruenas.Client.State.{Envelope, message, terminator}
use aiotruenas.Client.Subscriptions.{drain_events, take_events}

abbrev pub messages : List Fields → List Envelope
messages [] = []
messages (m ∷ ms) = message m ∷ messages ms

-- The queue is the messages taken out, in order, before the end or a terminator and what is left.
abbrev pub Splits : List Envelope → List Fields × List Envelope → Type 0
Splits queue (events, left) =
    ((queue ≡ messages events) × (left ≡ [])) ⊎ (queue ≡ messages events ++ terminator ∷ left)

drain_events-Splits : (queue : List Envelope) → Splits queue (drain_events queue)
unfolding drain_events
drain_events-Splits [] = inl (refl, refl)
drain_events-Splits (terminator ∷ rest) = inr refl
drain_events-Splits (message m ∷ rest) = elim (drain_events-Splits rest) [
  | inl (all, empty) ↦ inl (ap (◌∷◌ (message m)) all, empty)
  | inr ended ↦ inr (ap (◌∷◌ (message m)) ended)
]

-- Whatever the timeout, reading a queue takes out the messages before its first terminator, all of
-- them and in order, with the terminator.
pub take_events-Splits :
    (timed : Bool) (queue : List Envelope) → Splits queue (take_events timed queue)
unfolding take_events
take_events-Splits true [] = inl (refl, refl)
take_events-Splits true (terminator ∷ rest) = inr refl
take_events-Splits true (message m ∷ rest) =
    unfold drain_events in drain_events-Splits (message m ∷ rest)
take_events-Splits false [] = inl (refl, refl)
take_events-Splits false (e ∷ rest) = drain_events-Splits (e ∷ rest)
