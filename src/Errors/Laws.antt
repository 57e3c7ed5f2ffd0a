-- ===== src/Errors/Laws.antt =====
-- Which classes the errors of a failed connection have.
use aiotruenas.Base.{
  ℕ, String, Bool, true, ◌≡◌, refl, Option, none, some, List, [], ◌∷◌, arith, Bool-cases, inl, inr,
}
use aiotruenas.Value.Text
use aiotruenas.Value.Text.{codes}
use aiotruenas.Errors.Exceptions.{
  Class, Class-discrete, base, connection, unknown, class_of, is_subclass,
}
use aiotruenas.Errors.Classify.{
  Errnos, ConnectFailure, Kind, cert_verification, gaierror, refused_error, timeout_error, os_error,
  invalid_status, classify_by_type, classify_by_status_code, first_rule, classify_by_text,
  text_fragment_rules, classify, classify_connect_exception,
}

-- Every class of the hierarchy is a `TrueNASError`.
pub is_subclass-base : (c : Class) → is_subclass c base ≡ true
unfolding is_subclass Class-discrete
is_subclass-base base = refl
is_subclass-base _ = refl

-- A class of connection errors, if any.
is_connection : Option Class → Bool
unfolding is_subclass
is_connection none = true
is_connection (some c) = is_subclass c connection

abbrev AllConnection : List (String × Class) → Type 0
AllConnection [] = Unit
AllConnection ((fragment, c) ∷ rules) = (is_subclass c connection ≡ true) × AllConnection rules

text_fragment_rules-connection : AllConnection text_fragment_rules
unfolding is_subclass
text_fragment_rules-connection = (refl, (refl, (refl, (refl, (refl, (refl, (refl, tt)))))))

first_rule-connection :
    (s : List ℕ) (rules : List (String × Class))
    → AllConnection rules
    → is_connection (first_rule s rules) ≡ true
unfolding first_rule is_connection
first_rule-connection s [] h = refl
first_rule-connection s ((fragment, c) ∷ rules) h =
    elim (Bool-cases (Text.has_fragment (codes fragment) s)) [
      | inl found ↦ rw found h.0
      | inr missing ↦ rw missing (first_rule-connection s rules h.1)
    ]

classify_by_type-connection :
    (E : Errnos) (kind : Kind) (errno : Option ℕ)
    → is_connection (classify_by_type E kind errno) ≡ true
unfolding classify_by_type is_connection
classify_by_type-connection E cert_verification errno = refl
classify_by_type-connection E gaierror errno = ground arith
classify_by_type-connection E os_error none = refl
classify_by_type-connection E os_error (some n) = ground arith
classify_by_type-connection E refused_error errno = refl
classify_by_type-connection E timeout_error errno = refl
classify_by_type-connection E _ errno = refl

classify_by_status_code-connection :
    (kind : Kind) → is_connection (classify_by_status_code kind) ≡ true
unfolding classify_by_status_code is_connection
classify_by_status_code-connection (invalid_status code) = ground arith
classify_by_status_code-connection _ = refl

classify-connection : (E : Errnos) (exc : ConnectFailure) → is_connection (classify E exc) ≡ true
unfolding classify classify_by_text
classify-connection E exc = ground (
  arith,
  classify_by_type-connection E exc.kind exc.errno,
  classify_by_status_code-connection exc.kind,
  first_rule-connection (Text.strip_lower exc.message) text_fragment_rules
      text_fragment_rules-connection,
)

or_unknown : Option Class → Class
or_unknown none = unknown
or_unknown (some c) = c

or_unknown-connection :
    (o : Option Class) → is_connection o ≡ true → is_subclass (or_unknown o) connection ≡ true
unfolding is_connection or_unknown
or_unknown-connection none h = refl
or_unknown-connection (some c) h = h

class_of-classify :
    (E : Errnos) (exc : ConnectFailure)
    → class_of (classify_connect_exception E exc) ≡ or_unknown (classify E exc)
unfolding class_of classify_connect_exception or_unknown
class_of-classify E exc = ground arith

-- Whatever made a connection fail, `except TrueNASConnectionError` catches it.
pub classify_connect_exception-connection :
    (E : Errnos) (exc : ConnectFailure)
    → is_subclass (class_of (classify_connect_exception E exc)) connection ≡ true
classify_connect_exception-connection E exc =
    rw class_of-classify (or_unknown-connection (classify E exc) (classify-connection E exc))
