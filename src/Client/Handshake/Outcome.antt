-- ===== src/Client/Handshake/Outcome.antt =====
-- What `connect` leaves.
use aiotruenas.Base.{
  ℕ, String, Bool, true, false, ◌≡◌, refl, ap, ◌∙◌, sym, ◌⊎◌, none, some, arith, inl, inr, Result,
  ok, raise,
}
use mathlib.Core.Path.{subst}
use aiotruenas.Value.{Value, Fields}
use aiotruenas.Errors.Classify.{Errnos}
use aiotruenas.Rpc.{Failure}
use aiotruenas.Client.State.{Client, next_id}
use aiotruenas.Client.Connection.{
  connected, connected_on, private_methods_reply, log_private_methods_failure,
}
use aiotruenas.Client.Invariant.{IsConsistent, connected-IsConsistent}
use aiotruenas.Client.Invariant.Calls.{private_methods_reply-IsConsistent, next_id-IsConsistent}
use aiotruenas.Client.Handshake.{
  Setup, open_websocket, request_before_reader, login_with, with_option, option_stage, logged_in,
  with_socket, connect_on, connect,
}

-- Other tasks leave the connection alone and the tables consistent.
abbrev pub IsCalm : (Client → Client) → Type 0
IsCalm change =
    (s : Client) → IsConsistent s → s.ws ≡ none → IsConsistent (change s) × ((change s).ws ≡ none)

-- The connection is the current one, and its reader runs.
abbrev pub IsConnected : ℕ → Result Failure (Unit {0}) × Client → Type 0
IsConnected w (r, t) = IsConsistent t × (r ≡ ok tt) × (t.ws ≡ some w) × (t.reader_task ≡ some w)

abbrev pub HasFailed : Result Failure (Unit {0}) × Client → Type 0
HasFailed (r, t) = IsConsistent t × ((why : Failure) × (r ≡ raise why)) × (t.ws ≡ none)

connected-IsConnected :
    (w : ℕ) {s : Client} → IsConsistent s → s.ws ≡ none → IsConnected w (ok tt, connected w s)
unfolding connected connected_on
connected-IsConnected w {s} c h =
    let same : connected w s ≡ connected_on none w s = ap (λ o. connected_on o w s) h in
    (connected-IsConsistent c w, refl, ap (λ t. t.ws) same, ap (λ t. t.reader_task) same)

private_methods_reply-ws :
    (response : Fields) (s : Client) → (private_methods_reply response s).ws ≡ s.ws
unfolding private_methods_reply log_private_methods_failure
private_methods_reply-ws response s = ground arith

module _ (E : Errnos) (format : Value → String) where
  with_option-outcome :
      (w : ℕ) (r : Result Failure Fields) {s : Client}
      → IsConsistent s
      → s.ws ≡ none
      → IsConnected w (with_option E format w r s) ⊎ HasFailed (with_option E format w r s)
  unfolding with_option
  with_option-outcome w (ok response) {s} c h = inl (
      connected-IsConnected w (private_methods_reply-IsConsistent c response)
        (private_methods_reply-ws response s ∙ h))
  with_option-outcome w (raise why) c h = inr (c, (why, refl), h)

  option_stage-outcome :
      (p : Setup) (w : ℕ) (wanted : Bool) {s : Client}
      → IsCalm p.during_option
      → IsConsistent s
      → s.ws ≡ none
      → IsConnected w (option_stage E format p w wanted s)
        ⊎ HasFailed (option_stage E format p w wanted s)
  unfolding option_stage next_id
  option_stage-outcome p w false calm c h = inl (connected-IsConnected w c h)
  option_stage-outcome p w true {s} calm c h =
      let (kept, closed) = calm (next_id s).1 (next_id-IsConsistent c) h in
      with_option-outcome w _ kept closed

  logged_in-outcome :
      (p : Setup) (w : ℕ) (r : Result Failure (Unit {0})) {s : Client}
      → IsCalm p.during_option
      → IsConsistent s
      → s.ws ≡ none
      → ((r ≡ ok tt) × IsConnected w (logged_in E format p w r s))
        ⊎ HasFailed (logged_in E format p w r s)
  unfolding logged_in
  logged_in-outcome p w (raise why) calm c h = inr (c, (why, refl), h)
  logged_in-outcome p w (ok t) {s} calm c h =
      elim (option_stage-outcome p w s.private_methods calm c h) [
        | inl connected ↦ inl (refl, connected)
        | inr failed ↦ inr failed
      ]

  -- What `connect` returns, for a socket that was opened and a login that was accepted.
  abbrev pub HasConnected : Setup → Client → Result Failure (Unit {0}) × Client → Type 0
  HasConnected p s outcome =
      (w : ℕ) × (open_websocket E p.first p.second ≡ ok w)
      × (login_with E format
            (request_before_reader "login" s.next_id_value (p.login_exchange s.next_id_value))
          ≡ ok tt)
      × IsConnected w outcome

  with_socket-outcome :
      (p : Setup) (r : Result Failure ℕ) {s : Client}
      → open_websocket E p.first p.second ≡ r
      → IsCalm p.during_login
      → IsCalm p.during_option
      → IsConsistent s
      → s.ws ≡ none
      → HasConnected p s (with_socket E format p r s) ⊎ HasFailed (with_socket E format p r s)
  unfolding with_socket next_id
  with_socket-outcome p (raise why) opened login option c h = inr (c, (why, refl), h)
  with_socket-outcome p (ok w) {s} opened login option c h =
      let (kept, closed) = login (next_id s).1 (next_id-IsConsistent c) h in
      elim (logged_in-outcome p w
        (login_with E format
          (request_before_reader "login" s.next_id_value (p.login_exchange s.next_id_value)))
        option kept closed) [
          | inl (accepted, connected) ↦ inl (w, opened, accepted, connected)
          | inr failed ↦ inr failed
        ]

  -- From a consistent state without a connection, if the other tasks keep the tables consistent and
  -- open no connection meanwhile, `connect` returns or raises, and the tables are consistent after
  -- it. If it returns, a socket was opened, the login on it was accepted, the socket is the current
  -- connection and its reader runs; if it raises, there is no connection.
  pub connect-outcome :
      (p : Setup) (s : Client)
      → IsCalm p.during_open
      → IsCalm p.during_login
      → IsCalm p.during_option
      → IsConsistent s
      → s.ws ≡ none
      → HasConnected p (p.during_open s) (connect E format p s) ⊎ HasFailed (connect E format p s)
  unfolding connect connect_on
  connect-outcome p s open_calm login option c h =
      let (kept, closed) = open_calm s c h in
      subst (λ x. HasConnected p (p.during_open s) x ⊎ HasFailed x)
        (sym (ap (λ o. connect_on E format o p s) h))
        (with_socket-outcome p (open_websocket E p.first p.second) refl login option kept closed)
