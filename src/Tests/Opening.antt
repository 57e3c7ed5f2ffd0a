-- ===== src/Tests/Opening.antt =====
-- Opening a connection, reading from it, and calls on it.
use aiotruenas.Base.{
  ℕ, String, true, ◌≡◌, refl, false, Option, none, some, List, [], ◌∷◌, ◌⊎◌, inl, inr, ok, arith,
}
use aiotruenas.Base.Int.{pos}
use aiotruenas.Value.{
  text, Value, Fields, bool, int, str, obj, end, field, truthy, null, arr, nil, cons,
}
use aiotruenas.Errors.Classify.{ConnectFailure, Kind, member_of, build_call_error}
use aiotruenas.Helpers.Names.{stat_name_similar}
use aiotruenas.Client.State.{Client, init, is_current}
use aiotruenas.Rpc.{Reply}
use aiotruenas.Client.Options.{enable_private_methods}
use aiotruenas.Client.Options.Once.{enable_private_methods-once}
use aiotruenas.Client.Connection.{want_private_methods, option_target, connected}
use aiotruenas.Client.Invariant.{IsConsistent, IsConsistent-init, connected-IsConsistent}
use aiotruenas.Client.Handshake.{Setup, opened, timed_out, timeout, connect, url_of}
use aiotruenas.Client.Handshake.Outcome.{connect-outcome, HasConnected, HasFailed}
use aiotruenas.Client.Reader.{Arrival, json, undecodable, unexpected, unreadable, read_loop}
use aiotruenas.Client.Reader.Ended.{AllKeep, HasEnded, read_loop-ended}
use aiotruenas.Client.Calls.{answered, sent, reply_outcome, start_call, start_on, unregister_call}
use aiotruenas.Client.Job.States.{IsFinished, IsResult}
use aiotruenas.Client.Requests.{Trip, call_on_connection, poll_calls}
use aiotruenas.Client.Requests.Unregistered.{IsBenign, IsUntracked, call_on_connection-IsUntracked}
use aiotruenas.Client.Requests.Polling.{Answers, poll_calls-ends}
use aiotruenas.Tests.Connections.{linux}

abbrev slow : ConnectFailure
slow = record {
  kind = Kind.timeout_error;
  errno = none;
  message = "timed out";
  type_name = "TimeoutError";
}

abbrev reply : ℕ → Value → Option Value
reply n v = some (obj (field (text "id") (int (pos n)) (field (text "result") v end)))

-- The first attempt times out; a notification arrives before the reply to the login.
abbrev setup : Setup
setup = record {
  first = timed_out slow;
  second = opened 7;
  login_exchange = λ n. record {
    frames = some (str "hello") ∷ none ∷ reply n (bool true) ∷ [];
    ending = timeout;
  };
  option_exchange = λ n. record { frames = []; ending = timeout };
  during_open = λ s. s;
  during_login = λ s. s;
  during_option = λ s. s;
}

abbrev show : Value → String
show v = "value"

opened_at_last :
    connect linux show setup init ≡ (ok tt, connected 7 (record init { next_id_value = 2 }))
unfolding connect
opened_at_last = refl

connect-outcome_example :
    HasConnected linux show setup init (connect linux show setup init)
    ⊎ HasFailed (connect linux show setup init)
connect-outcome_example =
    connect-outcome linux show setup init (λ s c h. (c, h)) (λ s c h. (c, h)) (λ s c h. (c, h))
      IsConsistent-init refl

abbrev arrivals : List Arrival
arrivals =
    record {
      decoded = json (obj (field (text "id") (str "sub") end));
      before = λ s. s;
      meanwhile = λ s. s;
      error_text = "'sub'";
    }
    ∷ record { decoded = undecodable; before = λ s. s; meanwhile = λ s. s; error_text = "" }
    ∷ record {
      decoded = unexpected "maximum recursion depth exceeded";
      before = λ s. s;
      meanwhile = λ s. s;
      error_text = "";
    }
    ∷ []

all_keep : AllKeep arrivals
all_keep = ((λ s c. c), (λ s c. c), ((λ s c. c), (λ s c. c), ((λ s c. c), (λ s c. c), tt)))

read_loop-ended_example :
    HasEnded 7 unreadable (read_loop 7 arrivals (λ s. s) (some "reset") (connected 7 init))
read_loop-ended_example =
    read_loop-ended 7 (λ s. s) (λ s c. c) arrivals (some "reset") (connected 7 init) all_keep
      (connected-IsConsistent IsConsistent-init 7)

websocket_url :
    url_of (λ n. "8443") "truenas.local" true (some 8443)
    ≡ some "wss://truenas.local:8443/api/current"
unfolding url_of
websocket_url = refl

no_scheme : url_of (λ n. "8443") "https://truenas.local" true none ≡ none
unfolding url_of
no_scheme = refl

-- An IPv6 address is put into the URL without brackets.
unbracketed_url :
    url_of (λ n. "8443") "fe80::1" true (some 8443) ≡ some "wss://fe80::1:8443/api/current"
unfolding url_of
unbracketed_url = refl

near_miss : stat_name_similar (λ s. s) "cpu_temp" "cputemp" ≡ true
unfolding stat_name_similar
near_miss = refl

-- A call that is answered while it waits, and the polls of a job that appears at the second one.
abbrev answered_with : Value → Trip
answered_with v = record {
  serializable = true;
  sent = sent;
  waited = answered (field (text "result") v end);
  during_send = λ s. s;
  during_wait = λ s. s;
  during_lock = λ s. s;
  lock_cancelled = false;
  during_close = λ s. s;
  close_cancelled = false;
}

abbrev online : Client
online = connected 7 init

harmless : IsBenign (λ s. s)
harmless s c = (c, omega arith)

call_on_connection-IsUntracked_example :
    IsConsistent
      (call_on_connection (λ name. name) show "system.info" none none (answered_with null) online).1
    × IsUntracked 1
        (call_on_connection
          (λ name. name)
          show
          "system.info"
          none
          none
          (answered_with null)
          online).1
unfolding connected
call_on_connection-IsUntracked_example =
    call_on_connection-IsUntracked (λ name. name) show "system.info" none none (answered_with null)
      online (harmless, harmless, harmless, harmless, λ n s c old untracked. untracked)
      (connected-IsConsistent IsConsistent-init 7)

abbrev job : Fields
job = field (text "state") (str "SUCCESS") (field (text "result") (bool true) end)

abbrev job_shown : Value
job_shown = arr (cons (obj job) nil)

abbrev job_trips : List Trip
job_trips = answered_with (arr nil) ∷ answered_with job_shown ∷ []

job_answered : Answers (λ name. name) show (pos 5) job_trips (arr nil ∷ job_shown ∷ []) online
unfolding call_on_connection start_call connected start_on reply_outcome unregister_call
job_answered = (refl, (refl, tt))

job_shown-IsFinished : IsFinished job_shown
unfolding member_of
job_shown-IsFinished = (job, inl ((nil, refl), refl))

-- One answer without the job, then one that shows its success.
poll_calls-ends_example :
    IsResult job_shown (poll_calls (λ name. name) show (pos 5) job_trips 0 online).0
unfolding truthy
poll_calls-ends_example =
    poll_calls-ends (λ name. name) show (pos 5) job_trips (arr nil ∷ []) job_shown online
      job_answered (inr (refl, omega arith, tt)) job_shown-IsFinished

-- A server that rejects the option.
abbrev rejecting : Trip
rejecting = record (answered_with null) { waited = answered (field (text "error") (str "no") end) }

abbrev enabled : Reply × Client
enabled = enable_private_methods (λ name. name) show rejecting (λ s. s) online

enabled_returns : enabled.0 ≡ Reply.returned null
unfolding enable_private_methods call_on_connection start_call connected start_on reply_outcome
    unregister_call option_target is_current build_call_error truthy
enabled_returns = refl

enabled_online : enabled.1.ws ≡ some 7
unfolding enable_private_methods call_on_connection start_call connected start_on reply_outcome
    unregister_call option_target is_current build_call_error truthy
enabled_online = refl

enable_private_methods-once_example :
    enable_private_methods (λ name. name) show rejecting (λ s. s) enabled.1
    ≡ (Reply.returned null, want_private_methods enabled.1)
unfolding connected want_private_methods
enable_private_methods-once_example =
    enable_private_methods-once (λ name. name) show rejecting rejecting (λ s. s) online null 7 refl
      enabled_returns enabled_online
