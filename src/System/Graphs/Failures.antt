-- ===== src/System/Graphs/Failures.antt =====
-- Which failures of graph calls are reported and which one is raised.
use mathlib.Core.Path.{subst}
use mathlib.Core.Logic.{◌⊎◌, inl, inr}
use aiotruenas.Base.{
  String, Bool, true, false, ◌&&◌, ◌≡◌, refl, ap, ◌∙◌, Option, none, some, List, [], ◌∷◌, arith,
  if◌then◌else◌, Result, ok, raise, >>=-eq-ok, Bool-cases,
}
use aiotruenas.Value.{Value}
use aiotruenas.Errors.Exceptions.{ClientError}
use aiotruenas.Rpc.{Reply}
use aiotruenas.System.Graphs.{
  Raised, while_fetching, is_disconnect_symptom, root_cause, or_first, primary_error, fatal,
  report_or_raise, reportable_failures, Verdict, absent, usable, unusable, fatal_exception, judge,
  note_reply, sort_replies, fetch_graphs,
}

-- One of the errors.
abbrev pub Among : String × ClientError → List (String × ClientError) → Type 0
Among p [] = ⊥
Among p (q ∷ errors) = (p ≡ q) ⊎ Among p errors

unfoldable pub all_symptoms : List (String × ClientError) → Bool
all_symptoms [] = true
all_symptoms ((graph, e) ∷ errors) = is_disconnect_symptom e && all_symptoms errors

-- What is known of an error chosen from a list.
abbrev pub IsRootOf : String × ClientError → List (String × ClientError) → Type 0
IsRootOf p errors = Among p errors × (is_disconnect_symptom p.1 ≡ true → all_symptoms errors ≡ true)

root_cause-some :
    (errors : List (String × ClientError)) (p : String × ClientError)
    → root_cause errors ≡ some p
    → Among p errors × (is_disconnect_symptom p.1 ≡ false)
unfolding root_cause
root_cause-some [] p h = cc
root_cause-some ((graph, e) ∷ errors) p h = elim (Bool-cases (is_disconnect_symptom e)) [
  | inl symptom ↦
      (inr (root_cause-some errors p (ground arith)).0, (root_cause-some errors p (ground arith)).1)
  | inr cause ↦ (inl (ground arith), ground arith)
]

root_cause-none :
    (errors : List (String × ClientError)) → root_cause errors ≡ none → all_symptoms errors ≡ true
unfolding root_cause all_symptoms
root_cause-none [] h = refl
root_cause-none ((graph, e) ∷ errors) h = ground (arith, root_cause-none errors)

chosen-IsRootOf :
    (first : String × ClientError) (others : List (String × ClientError))
    (o : Option (String × ClientError))
    → root_cause (first ∷ others) ≡ o
    → IsRootOf (or_first o first) (first ∷ others)
chosen-IsRootOf first others none h = (inl refl, λ symptom. root_cause-none (first ∷ others) h)
chosen-IsRootOf first others (some p) h =
    let (among, cause) = root_cause-some (first ∷ others) p h in (among, λ symptom. cc)

primary_error-IsRootOf :
    (first : String × ClientError) (others : List (String × ClientError))
    → IsRootOf (primary_error first others) (first ∷ others)
unfolding primary_error
primary_error-IsRootOf first others = chosen-IsRootOf first others _ refl

same-IsRootOf :
    (errors : List (String × ClientError)) {p q : String × ClientError}
    → p ≡ q
    → IsRootOf p errors
    → IsRootOf q errors
same-IsRootOf errors h r = subst (λ x. IsRootOf x errors) h r

report_or_raise-raise :
    (errors candidates : List (String × ClientError)) (graph : String) (e : ClientError)
    → report_or_raise errors candidates ≡ raise (while_fetching graph e)
    → IsRootOf (graph, e) candidates
unfolding report_or_raise
report_or_raise-raise errors [] graph e h = cc
report_or_raise-raise errors (first ∷ others) graph e h =
    same-IsRootOf (first ∷ others) {p = primary_error first others} {q = (graph, e)} (ground arith)
      (primary_error-IsRootOf first others)

-- When the failures of graph calls are raised and not reported, the raised error is one of them, in
-- partial mode one that concerns the whole connection; it is a symptom of a lost connection only if
-- all of those are.
pub reportable_failures-raise :
    (partial : Bool) (errors : List (String × ClientError)) (graph : String) (e : ClientError)
    → reportable_failures partial errors ≡ raise (while_fetching graph e)
    → IsRootOf (graph, e) (if partial then fatal errors else errors)
unfolding reportable_failures
reportable_failures-raise partial errors graph e h = report_or_raise-raise errors _ graph e h

-- What is made of the replies, for a `repr` of Python.
module _ (repr : Value → String) where
  abbrev pub usable_of : String → Verdict repr → List (String × Value) → List (String × Value)
  usable_of graph (usable v) rest = (graph, v) ∷ rest
  usable_of graph verdict rest = rest

  abbrev pub unusable_of :
      String → Verdict repr → List (String × ClientError) → List (String × ClientError)
  unusable_of graph (unusable e) rest = (graph, e) ∷ rest
  unusable_of graph verdict rest = rest

  -- The well-formed results, and the failures, of the replies, each with its graph and in order.
  unfoldable pub usables : List (String × Reply) → List (String × Value)
  usables [] = []
  usables ((graph, reply) ∷ replies) = usable_of graph (judge repr graph reply) (usables replies)

  unfoldable pub unusables : List (String × Reply) → List (String × ClientError)
  unusables [] = []
  unusables ((graph, reply) ∷ replies) =
      unusable_of graph (judge repr graph reply) (unusables replies)

  note_reply-ok :
      (graph : String) (verdict : Verdict repr)
      (rest : Result Raised (List (String × Value) × List (String × ClientError)))
      {d : List (String × Value)} {f : List (String × ClientError)}
      → note_reply repr graph verdict rest ≡ ok (d, f)
      → (d' : List (String × Value)) × (f' : List (String × ClientError)) × (rest ≡ ok (d', f'))
        × (d ≡ usable_of graph verdict d')
        × (f ≡ unusable_of graph verdict f')
  unfolding note_reply
  note_reply-ok graph (fatal_exception why) rest h = cc
  note_reply-ok graph absent rest h = (_, _, h, refl, refl)
  note_reply-ok graph (usable v) (raise why) h = cc
  note_reply-ok graph (usable v) (ok (d', f')) h = (d', f', refl, cc, cc)
  note_reply-ok graph (unusable e) (raise why) h = cc
  note_reply-ok graph (unusable e) (ok (d', f')) h = (d', f', refl, cc, cc)

  sort_replies-ok :
      (replies : List (String × Reply)) {d : List (String × Value)}
      {f : List (String × ClientError)}
      → sort_replies repr replies ≡ ok (d, f)
      → (d ≡ usables replies) × (f ≡ unusables replies)
  unfolding sort_replies usables unusables
  sort_replies-ok [] h = (cc, cc)
  sort_replies-ok ((graph, reply) ∷ replies) h =
      let (d', f', before, readings, errors) =
        note_reply-ok graph (judge repr graph reply) (sort_replies repr replies) h in
      let (same_readings, same_errors) = sort_replies-ok replies before in
      (
        readings ∙ ap (usable_of graph (judge repr graph reply)) same_readings,
        errors ∙ ap (unusable_of graph (judge repr graph reply)) same_errors,
      )

  report_or_raise-ok :
      (errors candidates f : List (String × ClientError))
      → report_or_raise errors candidates ≡ ok f
      → (f ≡ errors) × (candidates ≡ [])
  unfolding report_or_raise
  report_or_raise-ok errors [] f h = (cc, refl)
  report_or_raise-ok errors (first ∷ others) f h = cc

  finished :
      (partial : Bool) (replies : List (String × Reply)) {d d' : List (String × Value)}
      {f f' f'' : List (String × ClientError)}
      → ◌≡◌ {A = Result Raised (List (String × Value) × List (String × ClientError))}
          (ok (d', f''))
          (ok (d, f))
      → f'' ≡ f'
      → d' ≡ usables replies
      → f' ≡ unusables replies
      → (if partial then fatal f' else f') ≡ []
      → (d ≡ usables replies) × (f ≡ unusables replies) × ((if partial then fatal f else f) ≡ [])
  finished partial replies {f = f} {f' = f'} final same readings errors none_left =
      let same_failures : f' ≡ f = cc in
      (cc, cc, subst (λ x. (if partial then fatal x else x) ≡ []) same_failures none_left)

  -- When the graph calls of `get_system_stats` return: the data are the well-formed results and the
  -- failures are the errors, each of its own graph; in strict mode there is no failure, in partial
  -- mode none that concerns the whole connection.
  pub fetch_graphs-ok :
      (partial : Bool) (replies : List (String × Reply)) {d : List (String × Value)}
      {f : List (String × ClientError)}
      → fetch_graphs repr partial replies ≡ ok (d, f)
      → (d ≡ usables replies) × (f ≡ unusables replies) × ((if partial then fatal f else f) ≡ [])
  unfolding fetch_graphs reportable_failures
  fetch_graphs-ok partial replies h =
      let ((d', f'), sorted, done) = >>=-eq-ok (sort_replies repr replies) _ h in
      let (f'', reported, final) = >>=-eq-ok (reportable_failures partial f') _ done in
      let (same, none_left) = report_or_raise-ok f' _ f'' reported in
      let (readings, errors) = sort_replies-ok replies sorted in
      finished partial replies final same readings errors none_left
