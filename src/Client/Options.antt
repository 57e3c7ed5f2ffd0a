-- ===== src/Client/Options.antt =====
-- `enable_private_methods` on its call of "core.set_options".
pub mod Once
use aiotruenas.Base.{ℕ, String, Bool, ◌||◌, Option, none, some, if◌then◌else◌}
use aiotruenas.Value.{Value, null}
use aiotruenas.Errors.Exceptions.{Class, ClientError, class_of, is_subclass}
use aiotruenas.Rpc.{Reply, returned, failed, aborted}
use aiotruenas.Client.State.{Client}
use aiotruenas.Client.Connection.{
  want_private_methods, option_target, log_private_methods_failure, option_sent,
}
use aiotruenas.Client.Requests.{Trip, call_on_connection}

-- An error that is logged instead of raised.
unfoldable pub is_rejection : ClientError → Bool
unfolding is_subclass class_of
is_rejection e =
    is_subclass (class_of e) Class.call || is_subclass (class_of e) Class.malformed_response

-- What the caller gets, for what the call came to, if it was made.
unfoldable pub enabled_reply : Option Reply → Reply
unfolding is_rejection
enabled_reply none = returned null
enabled_reply (some (returned v)) = returned null
enabled_reply (some (failed e)) = if is_rejection e then returned null else failed e
enabled_reply (some (aborted why)) = aborted why

-- The state after the call on the connection `w`.
unfoldable pub after_option : ℕ → Reply → Client → Client
unfolding is_rejection option_sent log_private_methods_failure
after_option w (returned v) s = option_sent w s
after_option w (failed e) s =
    if is_rejection e then option_sent w (log_private_methods_failure s) else s
after_option w (aborted why) s = s

module _ (repr : String → String) (format : Value → String) where
  enable_on : Trip → Option ℕ → Client → Reply × Client
  unfolding enabled_reply after_option call_on_connection
  enable_on t none s = (enabled_reply none, s)
  enable_on t (some w) s =
      let (reply, s') = call_on_connection repr format "core.set_options" (some w) none t s in
      (enabled_reply (some reply), after_option w reply s')

  -- `enable_private_methods`; `during_lock` is what other tasks do while it waits for its lock.
  unfoldable pub enable_private_methods : Trip → (Client → Client) → Client → Reply × Client
  unfolding enable_on want_private_methods option_target
  enable_private_methods t during_lock s =
      let wanted = during_lock (want_private_methods s) in enable_on t (option_target wanted) wanted
