-- ===== src/Shell/Socket.antt =====
-- web/privasys-shell.js, class SealedWebSocketAdapter: the sealed socket of the SDK behind the
-- interface of a browser WebSocket. A method or callback takes the adapter to the adapter after
-- it; the events that it dispatches and the calls that it makes are kept in order.
pub mod Laws
use attested_harness.Common.{
  ℕ, Bool, true, false, Option, none, some, List, [], ◌∷◌, ◌++◌, Text, codes,
}

-- The values of `readyState`.
pub data Ready : Type 0 where
  connecting opened closing closed : Ready

-- `CloseEvent`, with the fields that the adapter sets.
pub record CloseInfo : Type 0 where
  pub code : ℕ
  pub reason : Text
  pub was_clean : Bool

pub data Event : Type 0 where
  open_event error_event : Event
  message_event : Text → Event
  close_event : CloseInfo → Event

-- What the adapter asks of the SDK's socket.
pub data Call : Type 0 where
  send_call : Text → Call
  unsubscribe_call : Call
  close_call : (code : Option ℕ) (reason : Option Text) → Call

-- The adapter. `linked` is false where `openWebSocket` threw, so that `_sws` and `_unsub` are
-- missing.
pub record Adapter : Type 0 where
  pub ready_state : Ready
  pub linked : Bool
  pub subscribed : Bool
  pub events : List Event
  pub calls : List Call

abbrev pub emit : Adapter → List Event → Adapter
emit a es = record a { events = a.events ++ es }

abbrev pub call : Adapter → List Call → Adapter
call a cs = record a { calls = a.calls ++ cs }

-- A thrown value: its `message`, its own text, each missing where it is falsy.
pub record Thrown : Type 0 where
  pub message : Option Text
  pub as_text : Option Text

-- `String((err && err.message) || err || 'error')`.
unfoldable pub msg : Thrown → Text
msg e = first_text e.message (first_text e.as_text (codes "error"))
  where
    first_text : Option Text → Text → Text
    first_text none t = t
    first_text (some s) t = s

abbrev pub failure : Thrown → CloseInfo
failure e = record { code = 1006; reason = msg e; was_clean = false }

-- The outcome of `session.openWebSocket(path)`.
pub data Opening : Type 0 where
  socket_made : Opening
  socket_refused : Thrown → Opening

-- The constructor. Where the SDK threw, the two events come in a microtask, before which nobody
-- can call the adapter but the code that made it.
unfoldable pub new : Opening → Adapter
new socket_made = record {
  ready_state = connecting;
  linked = true;
  subscribed = true;
  events = [];
  calls = [];
}
new (socket_refused e) = record {
  ready_state = closed;
  linked = false;
  subscribed = false;
  events = error_event ∷ close_event (failure e) ∷ [];
  calls = [];
}

-- What the SDK's socket reports, and what the page calls.
pub data Input : Type 0 where
  ready_fulfilled : Input
  ready_rejected : Thrown → Input
  on_message : (bytes : Text) → Input
  on_close : CloseInfo → Input
  on_error : Input
  page_send : Text → Input
  page_close : (code : Option ℕ) (reason : Option Text) → Input

-- The SDK stops reporting messages to a callback that was unsubscribed.
abbrev pub deliver : Bool → Text → Adapter → Adapter
deliver true bytes a = emit a (message_event bytes ∷ [])
deliver false bytes a = a

-- `send` on a missing socket throws, and leaves the adapter as it is.
abbrev pub send_on : Bool → Text → Adapter → Adapter
send_on true text a = call a (send_call text ∷ [])
send_on false text a = a

-- `close`: the state first; both calls are guarded.
abbrev pub close_on : Bool → Option ℕ → Option Text → Adapter → Adapter
close_on true code reason a = record a {
  ready_state = closing;
  subscribed = false;
  calls = a.calls ++ (unsubscribe_call ∷ close_call code reason ∷ []);
}
close_on false code reason a = record a { ready_state = closing }

-- The callbacks of the constructor and the two methods. `decode` is the UTF-8 decoder.
module _ (decode : Text → Text) where
  unfoldable pub react : Input → Adapter → Adapter
  react ready_fulfilled a = emit (record a { ready_state = opened }) (open_event ∷ [])
  react (ready_rejected e) a =
      emit (record a { ready_state = closed }) (error_event ∷ close_event (failure e) ∷ [])
  react (on_message bytes) a = deliver a.subscribed (decode bytes) a
  react (on_close info) a = emit (record a { ready_state = closed }) (close_event info ∷ [])
  react on_error a = emit a (error_event ∷ [])
  react (page_send text) a = send_on a.linked text a
  react (page_close code reason) a = close_on a.linked code reason a

  unfoldable pub react_all : List Input → Adapter → Adapter
  unfolding react
  react_all [] a = a
  react_all (i ∷ is) a = react_all is (react i a)
