-- ===== src/Errors/Exceptions.antt =====
-- The exception classes of exceptions.py with their bases, and the errors that the client raises.
use aiotruenas.Base.{String, Bool, true, false, ◌||◌, List, [], ◌∷◌, ◌++◌}
use mathlib.Core.Logic.{ite}
use aiotruenas.Value.{Value}

-- `TrueNASError` is `base`, and `TrueNASxError` is x.
pub data Class : Type 0 where
  base connection certificate_verification http_scheme unsupported_tls_version : Class
  web_socket_unsupported host_unknown connection_refused proxy_intercepted : Class
  endpoint_not_found timeout handshake_timeout call_timeout authentication : Class
  connection_closed malformed_response call unknown : Class

-- The bases that a class statement names; that of `base` is Python's Exception.
unfoldable pub bases : Class → List Class
bases base = []
bases connection = base ∷ []
bases timeout = base ∷ []
bases authentication = base ∷ []
bases malformed_response = base ∷ []
bases call = base ∷ []
bases handshake_timeout = timeout ∷ connection ∷ []
bases call_timeout = timeout ∷ []
bases _ = connection ∷ []

pub data Phase : Type 0 where
  login call disconnect : Phase

-- An error with the attributes of its class. A `call_error` has message, code, errname, reason and
-- data; a `closed` error has its phase.
pub data ClientError : Type 0 where
  plain : Class → String → ClientError
  closed : String → Phase → ClientError
  call_error : Value → Value → Value → Value → Value → ClientError

unfoldable pub class_of : ClientError → Class
class_of (plain c message) = c
class_of (closed message phase) = connection_closed
class_of (call_error message code errname reason payload) = Class.call

unfoldable pub Class-discrete : Discrete Class
Class-discrete = hlevel

is_one_of : Class → List Class → Bool
unfolding Class-discrete
is_one_of d [] = false
is_one_of d (c ∷ cs) = ite (Class-discrete d c) true false || is_one_of d cs

-- The base classes of a list of classes.
all_bases : List Class → List Class
unfolding bases
all_bases [] = []
all_bases (c ∷ cs) = bases c ++ all_bases cs

-- `issubclass(c, d)`: no class has more than two levels of bases above it.
unfoldable pub is_subclass : Class → Class → Bool
unfolding is_one_of all_bases
is_subclass c d =
    is_one_of d (c ∷ [])
    || is_one_of d (all_bases (c ∷ []))
    || is_one_of d (all_bases (all_bases (c ∷ [])))
