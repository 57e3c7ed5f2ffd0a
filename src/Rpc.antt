-- ===== src/Rpc.antt =====
-- What a call of the client ends with, as the code on top of the client sees it.
use aiotruenas.Base.{String, Result, ok, raise}
use aiotruenas.Value.{Value}
use aiotruenas.Errors.Exceptions.{ClientError}

-- The result, a TrueNASError, or another exception such as a cancellation.
pub data Reply : Type 0 where
  returned : Value → Reply
  failed : ClientError → Reply
  aborted : String → Reply

-- What a method that makes one call raises.
pub data Failure : Type 0 where
  error : ClientError → Failure
  exception : String → Failure

-- `await self._client.call(...)`
abbrev pub result_of : Reply → Result Failure Value
result_of (returned v) = ok v
result_of (failed e) = raise (error e)
result_of (aborted why) = raise (exception why)
