-- ===== src/Errors/Classify.antt =====
-- `_errors.py`: the classification of connection-setup failures by type, by HTTP status and by
-- text, and the error of a JSON-RPC error object.
use aiotruenas.Base.{
  ℕ, String, Bool, true, false, ◌||◌, Option, none, some, List, [], ◌∷◌, ◌==◌, string_eq, nat_eq,
  if◌then◌else◌,
}
use aiotruenas.Value.{text, Value, null, str, obj, truthy, get}
use aiotruenas.Value.Text
use aiotruenas.Value.Text.{codes}
use aiotruenas.Normalize.Spec.{or_default}
use aiotruenas.Errors.Exceptions.{
  Class, certificate_verification, http_scheme, unsupported_tls_version, web_socket_unsupported,
  host_unknown, connection_refused, proxy_intercepted, endpoint_not_found, handshake_timeout,
  unknown, ClientError, plain, call_error,
}

-- The type of an exception, as the tests of `_classify_by_type` and `_status_code` tell types apart.
pub data Kind : Type 0 where
  cert_verification : Kind
  gaierror : Kind
  refused_error : Kind
  timeout_error : Kind
  os_error : Kind
  invalid_status : ℕ → Kind
  other : Kind

-- `message` is `str(exc)`, `type_name` is `type(exc).__name__`. Errno values are natural numbers,
-- a negative one (getaddrinfo's) by its absolute value.
pub record ConnectFailure : Type 0 where
  pub kind : Kind
  pub errno : Option ℕ
  pub message : String
  pub type_name : String

-- The platform's errno constants; the two that Python may lack are None then.
pub record Errnos : Type 0 where
  pub eai_noname : ℕ
  pub eai_nodata : Option ℕ
  pub econnrefused : ℕ
  pub etimedout : ℕ
  pub ehostunreach : Option ℕ

same_errno : Option ℕ → Option ℕ → Bool
unfolding nat_eq
same_errno none none = true
same_errno (some a) (some b) = a == b
same_errno _ _ = false

module _ (E : Errnos) where
  classify_os_error : Option ℕ → Option Class
  unfolding same_errno
  classify_os_error none = none
  classify_os_error (some n) =
      if same_errno (some n) (some E.econnrefused)
      then some connection_refused
      else if same_errno (some n) (some E.etimedout)
      then some handshake_timeout
      else if same_errno (some n) E.ehostunreach
      then some connection_refused
      else none

  unfoldable pub classify_by_type : Kind → Option ℕ → Option Class
  unfolding classify_os_error same_errno
  classify_by_type cert_verification errno = some certificate_verification
  classify_by_type gaierror errno =
      if same_errno errno (some E.eai_noname) || same_errno errno E.eai_nodata
      then some host_unknown
      else none
  classify_by_type refused_error errno = some connection_refused
  classify_by_type timeout_error errno = some handshake_timeout
  classify_by_type os_error errno = classify_os_error errno
  classify_by_type _ errno = none

is_member : ℕ → List ℕ → Bool
unfolding nat_eq
is_member n [] = false
is_member n (a ∷ rest) = n == a || is_member n rest

-- `_REDIRECT_STATUS_CODES` and `_AUTH_REJECTED_STATUS_CODES`
abbrev pub redirect_status_codes : List ℕ
redirect_status_codes = 301 ∷ 302 ∷ 303 ∷ 307 ∷ 308 ∷ []

abbrev pub auth_rejected_status_codes : List ℕ
auth_rejected_status_codes = 401 ∷ 403 ∷ []

unfoldable pub classify_by_status_code : Kind → Option Class
unfolding is_member nat_eq
classify_by_status_code (invalid_status code) =
    if is_member code redirect_status_codes || is_member code auth_rejected_status_codes
    then some proxy_intercepted
    else if code == 404
    then some endpoint_not_found
    else none
classify_by_status_code _ = none

-- `_TEXT_FRAGMENT_RULES`
abbrev pub text_fragment_rules : List (String × Class)
text_fragment_rules =
    ("certificate_verify_failed", certificate_verification)
    ∷ ("plain http request was sent to https port", http_scheme)
    ∷ ("tlsv1_unrecognized_name", unsupported_tls_version)
    ∷ ("no websocket upgrade", web_socket_unsupported)
    ∷ ("connection refused", connection_refused)
    ∷ ("no route to host", connection_refused)
    ∷ ("timed out while waiting for handshake response", handshake_timeout)
    ∷ []

unfoldable pub first_rule : List ℕ → List (String × Class) → Option Class
unfolding Text.has_fragment
first_rule normalized [] = none
first_rule normalized ((fragment, c) ∷ rules) =
    if Text.has_fragment (codes fragment) normalized then some c else first_rule normalized rules

unfoldable pub classify_by_text : String → Option Class
unfolding first_rule Text.strip_lower
classify_by_text message = first_rule (Text.strip_lower message) text_fragment_rules

abbrev pub or_else : Option Class → Option Class → Option Class
or_else none next = next
or_else (some c) next = some c

-- The loop of `classify_connect_exception`: the first classifier that knows the failure decides.
unfoldable pub classify : Errnos → ConnectFailure → Option Class
classify E exc =
    or_else (classify_by_type E exc.kind exc.errno)
      (or_else (classify_by_status_code exc.kind) (classify_by_text exc.message))

unfoldable pub classify_connect_exception : Errnos → ConnectFailure → ClientError
unfolding string_eq
classify_connect_exception E exc = elim (classify E exc) [
  | some c ↦ plain c exc.message
  | none ↦ plain unknown (if exc.message == "" then exc.type_name else exc.message)
]

-- `d.get(key)` of a value that is a dict, and None of any other.
unfoldable pub member_of : Value → String → Value
unfolding get
member_of (obj fs) key = or_default (get (text key) fs) null
member_of v key = null

either : Value → Value → Value
unfolding truthy
either v w = if truthy v then v else w

-- `build_call_error`; `format` is `str(error)`.
unfoldable pub build_call_error : (Value → String) → Value → ClientError
unfolding member_of either
build_call_error format (obj fs) =
    let payload = member_of (obj fs) "data" in
    let reason = member_of payload "reason" in
    call_error
      (either reason (either (member_of (obj fs) "message") (str "TrueNAS returned an RPC error")))
      (member_of (obj fs) "code") (member_of payload "errname") reason payload
build_call_error format v = call_error (str (format v)) null null null null
