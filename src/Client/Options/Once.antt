-- ===== src/Client/Options/Once.antt =====
-- The option of private methods is sent once for each connection.
use aiotruenas.Base.{
  ℕ, String, Bool, true, false, ◌≡◌, refl, ◌∙◌, ap, Option, none, some, arith, nat_eq,
  if◌then◌else◌,
}
use mathlib.Core.Path.{sym}
use aiotruenas.Value.{Value, null}
use aiotruenas.Rpc.{Reply, returned, failed, aborted}
use aiotruenas.Client.State.{Client, is_current}
use aiotruenas.Client.Connection.{
  want_private_methods, option_target, option_sent, log_private_methods_failure,
}
use aiotruenas.Client.Requests.{Trip, call_on_connection}
use aiotruenas.Client.Options.{
  is_rejection, enabled_reply, after_option, enable_on, enable_private_methods,
}

option_target-option_sent :
    (w : ℕ) (s : Client) → (option_sent w s).ws ≡ some w → option_target (option_sent w s) ≡ none
unfolding option_target option_sent is_current
option_target-option_sent w s current = ground arith

after_option-sent :
    (w : ℕ) (r : Reply) (s : Client) (v : Value)
    → enabled_reply (some r) ≡ returned v
    → (after_option w r s).ws ≡ some w
    → option_target (after_option w r s) ≡ none
unfolding enabled_reply after_option
after_option-sent w (returned u) s v h current = option_target-option_sent w s current
after_option-sent w (failed e) s v h current = by_case (is_rejection e) h current
  where
    by_case :
        (b : Bool)
        → (if b then returned null else failed e) ≡ returned v
        → (if b then option_sent w (log_private_methods_failure s) else s).ws ≡ some w
        → option_target (if b then option_sent w (log_private_methods_failure s) else s) ≡ none
    by_case true h current = option_target-option_sent w (log_private_methods_failure s) current
    by_case false h current = cc
after_option-sent w (aborted why) s v h current = cc

-- The connection that the option is sent on is the one that is found.
found-target : (s : Client) (v w : ℕ) → option_target s ≡ some v → s.ws ≡ some w → v ≡ w
unfolding option_target
found-target s v w target current = ground arith

module _ (repr : String → String) (format : Value → String) where
  enable_on-sent :
      (t : Trip) (o : Option ℕ) (s : Client) (v : Value) (w : ℕ)
      → option_target s ≡ o
      → s.ws ≡ some w
      → (enable_on repr format t o s).0 ≡ returned v
      → (enable_on repr format t o s).1.ws ≡ some w
      → option_target (enable_on repr format t o s).1 ≡ none
  unfolding enable_on
  enable_on-sent t none s v w target found h current = target
  enable_on-sent t (some u) s v w target found h current =
      after_option-sent u (call_on_connection repr format "core.set_options" (some u) none t s).0
        (call_on_connection repr format "core.set_options" (some u) none t s).1 v h
        (current ∙ ap some (sym (found-target s u w target found)))

  sends_nothing :
      (t : Trip) (u : Client)
      → option_target u ≡ none
      → enable_private_methods repr format t (λ x. x) u ≡ (returned null, want_private_methods u)
  unfolding enable_private_methods enable_on enabled_reply want_private_methods option_target
  sends_nothing t u none_found =
      ap (λ o. enable_on repr format t o (want_private_methods u)) none_found

  -- If `enable_private_methods` returns, and the connection that it found is still the current one,
  -- then calling it again on this connection sends nothing, however the server had answered.
  pub enable_private_methods-once :
      (t later : Trip) (during_lock : Client → Client) (s : Client) (v : Value) (w : ℕ)
      → (during_lock (want_private_methods s)).ws ≡ some w
      → (enable_private_methods repr format t during_lock s).0 ≡ returned v
      → (enable_private_methods repr format t during_lock s).1.ws ≡ some w
      → enable_private_methods repr format later
          (λ u. u)
          (enable_private_methods repr format t during_lock s).1
        ≡ (
          returned null,
          want_private_methods (enable_private_methods repr format t during_lock s).1,
        )
  unfolding enable_private_methods
  enable_private_methods-once t later during_lock s v w found h current =
      sends_nothing later (enable_private_methods repr format t during_lock s).1
        (enable_on-sent t _ (during_lock (want_private_methods s)) v w refl found h current)
