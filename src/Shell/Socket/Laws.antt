-- ===== src/Shell/Socket/Laws.antt =====
-- web/privasys-shell.js, class SealedWebSocketAdapter: what the mux client of the page sees.
use attested_harness.Common.{
  ℕ, ◌≡◌, refl, ap, ◌∙◌, Bool, true, false, Option, List, [], ◌∷◌, ◌++◌, append-nil, append_assoc,
  map, Text,
}
use attested_harness.Shell.Socket.{
  close_on, call, send_on, emit, deliver, opened, closing, closed, CloseInfo, Event, open_event,
  message_event, close_event, Call, send_call, unsubscribe_call, close_call, Adapter, socket_made,
  new, Input, ready_fulfilled, ready_rejected, on_message, on_close, on_error, page_send,
  page_close, react, react_all,
}

-- What the connection carries while it is open: texts either way.
pub data Traffic : Type 0 where
  inbound outbound : Text → Traffic

abbrev as_input : Traffic → Input
as_input (inbound bytes) = on_message bytes
as_input (outbound text) = page_send text

module _ (decode : Text → Text) where
  -- The texts that came in, decoded, as the events of a browser socket.
  abbrev pub heard : List Traffic → List Event
  heard [] = []
  heard (inbound bytes ∷ ts) = message_event (decode bytes) ∷ heard ts
  heard (outbound text ∷ ts) = heard ts

  abbrev pub said : List Traffic → List Call
  said [] = []
  said (inbound bytes ∷ ts) = said ts
  said (outbound text ∷ ts) = send_call text ∷ said ts

  react_all-append :
      (is js : List Input) (a : Adapter)
      → react_all decode (is ++ js) a ≡ react_all decode js (react_all decode is a)
  unfolding react_all
  react_all-append [] js a = refl
  react_all-append (i ∷ is) js a = react_all-append is js (react decode i a)

  traffic_lem :
      (ts : List Traffic) (a : Adapter)
      → a.linked ≡ true
      → a.subscribed ≡ true
      → react_all decode (map as_input ts) a
        ≡ record a { events = a.events ++ heard ts; calls = a.calls ++ said ts }
  unfolding react_all
  traffic_lem [] a l s = cc (append-nil a.events, append-nil a.calls)
  traffic_lem (inbound bytes ∷ ts) a l s =
      ap (λ b. react_all decode (map as_input ts) (deliver b (decode bytes) a)) s
      ∙ traffic_lem ts (emit a (message_event (decode bytes) ∷ [])) l s
      ∙ cc (append_assoc a.events (message_event (decode bytes) ∷ []) (heard ts))
  traffic_lem (outbound text ∷ ts) a l s =
      ap (λ b. react_all decode (map as_input ts) (send_on b text a)) l
      ∙ traffic_lem ts (call a (send_call text ∷ [])) l s
      ∙ cc (append_assoc a.calls (send_call text ∷ []) (said ts))

  -- A connection that opens, carries texts both ways and is closed by the other side looks to the
  -- page like a browser socket: one open event, one message event for each sealed message, decoded
  -- and in order, one close event with the SDK's code, reason and cleanness, and then CLOSED; and
  -- exactly the texts that the page sent went to the sealed socket, in order.
  pub react_all-session :
      (ts : List Traffic) (info : CloseInfo)
      → react_all decode
          (ready_fulfilled ∷ (map as_input ts ++ (on_close info ∷ [])))
          (new socket_made)
        ≡ record {
          ready_state = closed;
          linked = true;
          subscribed = true;
          events = (open_event ∷ heard ts) ++ (close_event info ∷ []);
          calls = said ts;
        }
  unfolding react_all new
  react_all-session ts info =
      react_all-append (map as_input ts) (on_close info ∷ []) _
      ∙ ap (react_all decode (on_close info ∷ [])) (
          traffic_lem ts
            (record {
              ready_state = opened;
              linked = true;
              subscribed = true;
              events = open_event ∷ [];
              calls = [];
            })
            refl refl)

  react-linked : (i : Input) (a : Adapter) → (react decode i a).linked ≡ a.linked
  unfolding react
  react-linked ready_fulfilled a = refl
  react-linked (ready_rejected e) a = refl
  react-linked (on_message bytes) a = deliver-linked a.subscribed bytes a
    where
      deliver-linked :
          (b : Bool) (t : Text) (c : Adapter) → (deliver b (decode t) c).linked ≡ c.linked
      deliver-linked true t c = refl
      deliver-linked false t c = refl
  react-linked (on_close info) a = refl
  react-linked on_error a = refl
  react-linked (page_send text) a = send-linked a.linked text a
    where
      send-linked : (b : Bool) (t : Text) (c : Adapter) → (send_on b t c).linked ≡ c.linked
      send-linked true t c = refl
      send-linked false t c = refl
  react-linked (page_close code reason) a = close-linked a.linked a
    where
      close-linked : (b : Bool) (c : Adapter) → (close_on b code reason c).linked ≡ c.linked
      close-linked true c = refl
      close-linked false c = refl

  react_all-linked : (is : List Input) (a : Adapter) → (react_all decode is a).linked ≡ a.linked
  unfolding react_all
  react_all-linked [] a = refl
  react_all-linked (i ∷ is) a = react_all-linked is (react decode i a) ∙ react-linked i a

  silent_lem :
      (is : List Text) (a : Adapter)
      → a.subscribed ≡ false
      → react_all decode (map on_message is) a ≡ a
  unfolding react_all
  silent_lem [] a h = refl
  silent_lem (bytes ∷ is) a h =
      ap (λ b. react_all decode (map on_message is) (deliver b (decode bytes) a)) h
      ∙ silent_lem is a h

  -- Once the page closed a socket that the SDK made, whatever it did before, no later message
  -- reaches it, the state reads CLOSING, and the SDK was asked, last, to close with the page's code
  -- and reason.
  pub react_all-page_close :
      (before : List Input) (code : Option ℕ) (reason : Option Text) (late : List Text)
      → react_all decode
          (before ++ (page_close code reason ∷ map on_message late))
          (new socket_made)
        ≡ (let a = react_all decode before (new socket_made) in
            record a {
              ready_state = closing;
              subscribed = false;
              calls = a.calls ++ (unsubscribe_call ∷ close_call code reason ∷ []);
            })
  react_all-page_close before code reason late =
      let a = react_all decode before (new socket_made) in
      let linked' : a.linked ≡ true =
        react_all-linked before (new socket_made) ∙ unfold new in refl in
      react_all-append before (page_close code reason ∷ map on_message late) (new socket_made)
      ∙ unfold react_all in
        (ap (λ b. react_all decode (map on_message late) (close_on b code reason a)) linked'
          ∙ silent_lem late (close_on true code reason a) refl)
