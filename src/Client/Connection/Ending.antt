-- ===== src/Client/Connection/Ending.antt =====
-- What the end of a connection does to the futures and queues that its users wait on.
use mathlib.Core.List.{append-nil, append_assoc}
use native.Mathlib.Decide.{ℕ_discrete}
use aiotruenas.Base.{
  ℕ, zero, suc, String, not, ◌&&◌, ◌≡◌, refl, List, [], ◌∷◌, ◌++◌, arith, ◌==◌, string_eq, nat_eq,
  if◌then◌else◌,
}
use aiotruenas.Base.Assoc.{Dict, insert, lookup-insert}
use aiotruenas.Errors.Exceptions.{closed, disconnect}
use aiotruenas.Client.State.{
  Client, Future, failed, Envelope, terminator, future, done, items, enqueue, contains,
}
use aiotruenas.Client.Connection.{fail_all, end_all, detach_connection}

pub future-insert :
    (n m : ℕ) (f : Future) (fs : Dict ℕ Future)
    → future (insert m f fs) n ≡ (if n == m then f else future fs n)
unfolding future
future-insert n m f fs = ground (arith, lookup-insert n m f fs)

pub items-enqueue :
    (p q : ℕ) (e : Envelope) (qs : Dict ℕ (List Envelope))
    → items (enqueue q e qs) p ≡ (if p == q then items qs p ++ e ∷ [] else items qs p)
unfolding items enqueue
items-enqueue p q e qs = ground (arith, lookup-insert p q (items qs q ++ e ∷ []) qs)

pub future-fail_all :
    (n : ℕ) (why : String) (ns : List ℕ) (fs : Dict ℕ Future)
    → future (fail_all why ns fs) n ≡ (
        if contains n ns && not (done (future fs n))
        then failed (closed why disconnect)
        else future fs n)
unfolding fail_all contains
future-fail_all n why [] fs = refl
future-fail_all n why (m ∷ ns) fs = ground (
  arith,
  future-fail_all n why ns fs,
  future-fail_all n why ns (insert m (failed (closed why disconnect)) fs),
  future-insert n m (failed (closed why disconnect)) fs,
)

-- How many subscriptions use a queue.
unfoldable pub uses : ℕ → Dict String ℕ → ℕ
uses q [] = 0
uses q ((id, p) ∷ subs) = if q == p then suc (uses q subs) else uses q subs

abbrev pub terminators : ℕ → List Envelope
terminators zero = []
terminators (suc n) = terminator ∷ terminators n

items-end_all :
    (q : ℕ) (subs : Dict String ℕ) (qs : Dict ℕ (List Envelope))
    → items (end_all subs qs) q ≡ items qs q ++ terminators (uses q subs)
unfolding end_all uses
items-end_all q [] qs = rw append-nil
items-end_all q ((id, p) ∷ subs) qs = elim (ℕ_discrete q p) [
  | yes own ↦ ground (
    arith,
    items-end_all q subs (enqueue p terminator qs),
    items-enqueue q p terminator qs,
    append_assoc (items qs q) (terminator ∷ []) (terminators (uses q subs)),
  )
  | no other ↦
      ground
        (arith, items-end_all q subs (enqueue p terminator qs), items-enqueue q p terminator qs)
]

-- When a connection is detached, every pending call that still waits fails with a disconnect error,
-- and every other future keeps its state; a queue gets one terminator for each subscription that
-- uses it, behind what it holds; no call is pending and no subscription tracked any more.
pub detach_connection-ends :
    (why : String) (s : Client)
    → ((n : ℕ)
        → future (detach_connection why s).futures n ≡ (
            if contains n s.pending_calls && not (done (future s.futures n))
            then failed (closed why disconnect)
            else future s.futures n))
      × ((q : ℕ)
          → items (detach_connection why s).queues q
            ≡ items s.queues q ++ terminators (uses q s.subscriptions))
      × ((detach_connection why s).pending_calls ≡ [])
      × ((detach_connection why s).subscriptions ≡ [])
unfolding detach_connection
detach_connection-ends why s = (
  λ n. future-fail_all n why s.pending_calls s.futures,
  λ q. items-end_all q s.subscriptions s.queues,
  refl,
  refl,
)
