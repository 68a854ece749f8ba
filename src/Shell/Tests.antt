-- ===== src/Shell/Tests.antt =====
-- The shell at concrete histories.
use attested_harness.Shell.SignIn.OneBoot.{starts}
use attested_harness.Shell.SignIn.Laws.{Reach-SealedFirst, Reach-one_reload, settle_run_cases}
use attested_harness.Shell.SignIn.Invariant.{SealedFirst, reloads}
use attested_harness.Shell.SignIn.Claims.{
  Field, text_field, claim_from_jwt, claim_from_jwt-encoded, to_url_alphabet,
}
use attested_harness.Shell.SignIn.{
  resolved, rejected, install_fails, boot_ok, run_called, connect_settled, logout_called,
  clear_settled, at_load, after, loaded, Page,
}
use attested_harness.Common.{
  ◌≢◌, arith, map, Bool, In, trim, ℕ, ◌≤◌, ◌≡◌, refl, ◌⊎◌, true, false, Option, none, some, List,
  [], ◌∷◌, ◌++◌, Text, codes,
}
use attested_harness.Shell.Fifo.{
  Status, Chain, Action, enqueue, begin, settle, release, Reach, begun, turn, step, enqueued,
}
use attested_harness.Shell.Fifo.Laws.{waiting, in_flight}
use attested_harness.Shell.Fifo.Order.{chain_order, chain_progress, Turns}
use attested_harness.Shell.Socket.{
  CloseInfo, ready_fulfilled, on_message, on_close, page_send, page_close, socket_made, new,
  react_all, closing, closed, open_event, close_event, unsubscribe_call, close_call,
}
use attested_harness.Shell.Socket.Laws.{
  Traffic, inbound, outbound, heard, said, react_all-session, react_all-page_close,
}
use attested_harness.Shell.Route.{
  Url, mux_path, no_protocols, sealed_adapter, native_socket, intercept, sealed_fetch, by_text,
}
use attested_harness.Shell.Route.Laws.{intercept_cases, IsMux, Carries}
use attested_harness.Shell.SignIn

-- Two requests; the first one fails on the wire.
abbrev two_calls : List Action
two_calls =
    ((([] ++ (enqueue 7 ∷ [])) ++ (enqueue 8 ∷ [])) ++ (begin 0 ∷ [])) ++ (settle 0 false ∷ [])

abbrev after_failure : Chain
after_failure = record { jobs = (7, Status.settled false) ∷ (8, Status.queued) ∷ []; sent = 7 ∷ [] }

failure_reached : Reach two_calls after_failure
unfolding step
failure_reached =
    turn (settle 0 false)
      (turn (begin 0) (turn (enqueue 8) (turn (enqueue 7) begun refl) refl) refl) refl

chain_order_example :
    (after_failure.sent ++ waiting after_failure.jobs ≡ enqueued two_calls)
    × (in_flight after_failure.jobs ≤ 1)
chain_order_example = chain_order two_calls after_failure failure_reached

chain_progress_example :
    (settling : List ℕ) × (m : Chain) × Turns (map (λ c. release c) settling) after_failure m
    × ((call : ℕ) × (t : Chain) × (step (begin call) m ≡ some t) × (t.sent ≡ 7 ∷ 8 ∷ []))
chain_progress_example = chain_progress two_calls after_failure 8 [] failure_reached refl refl

abbrev same_bytes : Text → Text
same_bytes t = t

abbrev gone : CloseInfo
gone = record { code = 1001; reason = codes "away"; was_clean = true }

abbrev chat : List Traffic
chat = inbound (codes "hello") ∷ outbound (codes "{}") ∷ inbound (codes "bye") ∷ []

react_all-session_example :
    (react_all same_bytes
      (ready_fulfilled
        ∷ on_message (codes "hello")
        ∷ page_send (codes "{}")
        ∷ on_message (codes "bye")
        ∷ on_close gone
        ∷ [])
      (new socket_made))
    ≡ record {
      ready_state = closed;
      linked = true;
      subscribed = true;
      events = (open_event ∷ heard same_bytes chat) ++ (close_event gone ∷ []);
      calls = said same_bytes chat;
    }
react_all-session_example = react_all-session same_bytes chat gone

react_all-page_close_example :
    react_all same_bytes
      (ready_fulfilled ∷ page_close (some 1000) none ∷ on_message (codes "late") ∷ [])
      (new socket_made)
    ≡ (let a = react_all same_bytes (ready_fulfilled ∷ []) (new socket_made) in
        record a {
          ready_state = closing;
          subscribed = false;
          calls = a.calls ++ (unsubscribe_call ∷ close_call (some 1000) none ∷ []);
        })
react_all-page_close_example =
    react_all-page_close same_bytes (ready_fulfilled ∷ []) (some 1000) none (codes "late" ∷ [])

-- A URL parser for absolute paths.
abbrev parse_path : Text → Option Url
parse_path [] = none
parse_path (c ∷ s) = some (record { pathname = c ∷ s; search = [] })

abbrev five : ℕ
five = 5

intercept_cases_example :
    ((intercept parse_path {S = ℕ} five native_socket (codes "/api/remote.mux") no_protocols
        ≡ sealed_adapter five mux_path)
      × IsMux parse_path (codes "/api/remote.mux")
      × (¬ Carries no_protocols))
    ⊎ ((intercept parse_path five native_socket (codes "/api/remote.mux") no_protocols
          ≡ native_socket (codes "/api/remote.mux") no_protocols)
        × ((¬ IsMux parse_path (codes "/api/remote.mux")) ⊎ Carries no_protocols))
intercept_cases_example = intercept_cases parse_path five (codes "/api/remote.mux") no_protocols

fetch_test :
    sealed_fetch parse_path
      (by_text (codes "/api/x"))
      (record { method = some (codes "post"); body = none; signal = none })
    ≡ some (record { method = codes "POST"; path = codes "/api/x"; body = none; signal = none })
unfolding sealed_fetch
fetch_test = refl

abbrev no_name : Text → Option Text
no_name t = none

abbrev closed_by_user : SignIn.Failure
closed_by_user = record { code = some (codes "cancelled"); message = none; as_text = none }

-- A sign-in that succeeds although installing the transport threw, then two clicks on sign-out.
abbrev asked : Page ℕ
asked = SignIn.start_run true true (loaded ℕ)

abbrev signed_in : Page ℕ
signed_in =
    SignIn.settle_run no_name install_fails boot_ok (resolved (codes "t") (some 5))
      (record asked { connecting = 0 })

abbrev leaving : Page ℕ
leaving = SignIn.start_logout true (SignIn.start_logout true signed_in)

abbrev left : Page ℕ
left = SignIn.finish_logout leaving

left_reached : SignIn.Reach no_name left
unfolding SignIn.step
left_reached =
    after {p = leaving} clear_settled
      (after {p = SignIn.start_logout true signed_in} (logout_called true)
        (after {p = signed_in} (logout_called true)
          (after {p = asked} (connect_settled install_fails boot_ok (resolved (codes "t") (some 5)))
            (after {p = loaded ℕ} (run_called true true) at_load refl) refl)
          refl)
        refl)
      refl

Reach-SealedFirst_example :
    SealedFirst left.effects
    × ((left.gate_hidden ≡ false) ⊎ ((s : ℕ) × In (SignIn.published s) left.effects))
    × (left.global ≡ left.sealed)
    × (left.connecting ≤ 1)
    × (starts left.effects ≤ 1)
Reach-SealedFirst_example = Reach-SealedFirst no_name left left_reached

Reach-one_reload_example :
    ((left.logging_out ≡ false) × (reloads left.effects ≡ 0))
    ⊎ ((left.logging_out ≡ true) × (left.clearing ≡ false) × (reloads left.effects ≡ 1))
    ⊎ ((left.logging_out ≡ true) × (left.clearing ≡ true) × (reloads left.effects ≡ 0))
Reach-one_reload_example = Reach-one_reload no_name left left_reached

abbrev user_closed : SignIn.Connected ℕ
user_closed = rejected closed_by_user

settle_run_cases_example :
    let q = SignIn.settle_run no_name install_fails boot_ok user_closed asked in
    ((token : Text) × (s : ℕ) × (user_closed ≡ resolved token (some s))
      × (q.gate_hidden ≡ true)
      × (q.global ≡ some s)
      × In (SignIn.published s) q.effects)
    ⊎ (((token : Text) (s : ℕ) → user_closed ≢ resolved token (some s))
        × ((m : Text) × (closed : Bool) × (q.gate ≡ SignIn.fallback m closed)
            × (closed ≡ true
                → (e : SignIn.Failure) × (user_closed ≡ rejected e)
                  × (e.code ≡ some (codes "cancelled")))
            × (q.gate_hidden ≡ false)
            × (q.effects ≡ asked.effects)))
settle_run_cases_example = settle_run_cases no_name install_fails boot_ok user_closed asked

-- Decoders that read a payload as it stands.
abbrev atob_plain : Text → Option Text
atob_plain t = some t

abbrev whole_field : Text → Text → Option Field
whole_field json claim = some (text_field json)

claim_from_jwt-encoded_example :
    claim_from_jwt atob_plain whole_field
      (codes "h" ++ (b'.' ∷ (map to_url_alphabet (codes " a+/ ") ++ (b'.' ∷ codes "s"))))
      (codes "name")
    ≡ some (codes "a+/")
unfolding trim
claim_from_jwt-encoded_example =
    claim_from_jwt-encoded atob_plain whole_field (codes "h") (codes " a+/ ") (codes "s")
      (codes "name") (ground arith) (ground arith) (ground arith) (ground arith)
