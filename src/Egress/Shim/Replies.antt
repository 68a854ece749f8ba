-- ===== src/Egress/Shim/Replies.antt =====
-- proxy/cmd/egress-proxy/mcpshim.go: what the MCP endpoint replies to a message.
use attested_harness.Common.{
  ◌≡◌, ◌≢◌, refl, ◌⊎◌, inl, inr, Bool, true, false, Option, none, some, List, [], arith, ◌==◌,
  if◌then◌else◌, Bool-cases, take, Text, codes, same, same_iff, sym, ap, ◌∙◌, subst, ◌||◌, if_split,
}
use attested_harness.Egress.{Inbound, Outbound, Upstream, refused, answer, is_empty}
use attested_harness.Egress.Shim.{
  shown_id, Shimmed, Tool, Rpc, ToolCall, Codec, Reply, bare, rpc_result, rpc_error, Method,
  initialize, notified, ping, tools_list, tools_call, other, method_of, call_reply, catalogue_reply,
  list_reply, call_tool, dispatch, on_message, mcp_shim, parse_error, own_cause, catalogue_request,
}

-- The message is one of the two notifications of the protocol.
abbrev pub IsNotification : Text → Type 0
IsNotification m = (m ≡ codes "notifications/initialized") ⊎ (m ≡ codes "notifications/cancelled")

-- The message asks for an answer: it has an id, which is not null.
abbrev pub HasId : Rpc → Type 0
HasId m = (is_empty m.id ≡ false) × (m.id ≢ codes "null")

-- A JSON-RPC answer with the id.
abbrev pub IsAnswer : Text → Reply → Type 0
IsAnswer id (rpc_result i result) = i ≡ id
IsAnswer id (rpc_error i code cause) = i ≡ id
IsAnswer id (bare status) = ⊥

notified_of : (m : Text) → method_of m ≡ notified → IsNotification m
unfolding method_of
notified_of m h = elim (Bool-cases (same m (codes "notifications/initialized"))) [
  | inl e ↦ inl ((same_iff m _).0 e)
  | inr e ↦ elim (Bool-cases (same m (codes "notifications/cancelled"))) [
    | inl f ↦ inr ((same_iff m _).0 f)
    | inr f ↦ absurd (ground (arith, e, f, h))
  ]
]

of_notified : (m : Text) → IsNotification m → method_of m ≡ notified
unfolding method_of
of_notified m (inl e) = rw e
of_notified m (inr e) = rw e

IsNotification-cases : (m : Text) → IsNotification m ⊎ (¬ IsNotification m)
IsNotification-cases m = elim (Bool-cases (same m (codes "notifications/initialized"))) [
  | inl e ↦ inl (inl ((same_iff m _).0 e))
  | inr e ↦ elim (Bool-cases (same m (codes "notifications/cancelled"))) [
    | inl f ↦ inl (inr ((same_iff m _).0 f))
    | inr f ↦ inr (λ (note : IsNotification m). elim note [
      | inl g ↦ cc (e, (same_iff m _).1 g)
      | inr g ↦ cc (f, (same_iff m _).1 g)
    ])
  ]
]

-- The id of the message as it is shown: its own, or null where the message has none.
id_cases :
    (m : Rpc) → (HasId m × (shown_id m.id ≡ m.id)) ⊎ ((¬ HasId m) × (shown_id m.id ≡ codes "null"))
id_cases m = elim (Bool-cases (is_empty m.id)) [
  | inl e ↦ inr (λ (has : HasId m). cc (e, has.0), rw e)
  | inr e ↦ elim (Bool-cases (same m.id (codes "null"))) [
    | inl f ↦ inr (λ (has : HasId m). has.1 ((same_iff m.id _).0 f), rw e ((same_iff m.id _).0 f))
    | inr f ↦ inl ((e, λ g. cc (f, (same_iff m.id (codes "null")).1 g)), rw e)
  ]
]

shown_null :
    (id : Text) → (is_empty id || same id (codes "null")) ≡ true → shown_id id ≡ codes "null"
shown_null id h = elim (Bool-cases (is_empty id)) [
  | inl e ↦ rw e
  | inr e ↦ rw e ((same_iff id (codes "null")).0 (rw e at h))
]

shown_full : (id : Text) → (is_empty id || same id (codes "null")) ≡ false → id ≡ shown_id id
shown_full id h = elim (Bool-cases (is_empty id)) [ inl e ↦ absurd (cc (rw e at h)) | inr e ↦ rw e ]

-- What becomes of a message, if it could be decoded.
pub data Replied : Option Rpc → Shimmed → Type 0 where
  undecodable :
      Replied none (record { reply = rpc_error (codes "null") parse_error own_cause; sent = [] })
  noted :
      (m : Rpc)
      → IsNotification m.method
      → Replied (some m) (record { reply = bare 202; sent = [] })
  answered :
      (m : Rpc) (s : Shimmed)
      → HasId m
      → ¬ IsNotification m.method
      → IsAnswer m.id s.reply
      → Replied (some m) s
  unasked :
      (m : Rpc) (s : Shimmed)
      → ¬ HasId m
      → ¬ IsNotification m.method
      → (s.reply ≡ bare 202) ⊎ IsAnswer (codes "null") s.reply
      → Replied (some m) s

module _ {V : Type 0} (json : Codec V) (client : Outbound → Upstream)
    (subject tool host : Text) where
  call_reply-IsAnswer : (id : Text) (u : Upstream) → IsAnswer id (call_reply id u)
  call_reply-IsAnswer id (refused e) = refl
  call_reply-IsAnswer id (answer status h body none) = refl
  call_reply-IsAnswer id (answer status h body (some e)) = refl

  catalogue_reply-IsAnswer :
      (id : Text) (o : Option (List Tool)) → IsAnswer id (catalogue_reply id o)
  catalogue_reply-IsAnswer id none = refl
  catalogue_reply-IsAnswer id (some ts) = refl

  if-IsAnswer :
      (id : Text) (b : Bool) (p q : Reply)
      → IsAnswer id p
      → IsAnswer id q
      → IsAnswer id (if b then p else q)
  if-IsAnswer id true p q hp hq = hp
  if-IsAnswer id false p q hp hq = hq

  list_reply-IsAnswer : (id : Text) (u : Upstream) → IsAnswer id (list_reply json id u)
  list_reply-IsAnswer id (refused e) = refl
  list_reply-IsAnswer id (answer status h body (some e)) = refl
  list_reply-IsAnswer id (answer status h body none) =
      if-IsAnswer id (status == 200) _ _ (catalogue_reply-IsAnswer id _) refl

  call_tool-IsAnswer :
      (r : Inbound) (id : Text) (c : Option ToolCall)
      → IsAnswer id (call_tool json client subject tool host r id c).reply
  call_tool-IsAnswer r id none = refl
  call_tool-IsAnswer r id (some c) = elim (Bool-cases (is_empty c.name)) [
    | inl e ↦ rw e refl
    | inr e ↦ rw e (call_reply-IsAnswer id _)
  ]

  -- The answer has the id of the message as it is shown; or the message has none, and the status
  -- says only that it was taken.
  abbrev Owed : Rpc → Shimmed → Type 0
  Owed m s =
      IsAnswer (shown_id m.id) s.reply ⊎ ((s.reply ≡ bare 202) × (shown_id m.id ≡ codes "null"))

  dispatch-Owed :
      (r : Inbound) (m : Rpc) (k : Method)
      → k ≢ notified
      → Owed m (dispatch json client subject tool host r m k)
  dispatch-Owed r m initialize k = inl refl
  dispatch-Owed r m notified k = absurd (k refl)
  dispatch-Owed r m ping k = inl refl
  dispatch-Owed r m tools_list k =
      inl (list_reply-IsAnswer (shown_id m.id) (client (catalogue_request subject r host)))
  dispatch-Owed r m tools_call k =
      inl (call_tool-IsAnswer r (shown_id m.id) (json.call_of m.params))
  dispatch-Owed r m other k =
      if_split (Owed m) (is_empty m.id || same m.id (codes "null")) _ _
        (λ e. inr (refl, shown_null m.id e)) (λ e. inl (shown_full m.id e))

  pub mcp_shim-post :
      (r : Inbound)
      → r.method ≡ codes "POST"
      → r.readable ≡ true
      → mcp_shim json client subject tool host r
        ≡ on_message json client subject tool host r (json.rpc_of (take 4194304 r.body))
  unfolding mcp_shim
  mcp_shim-post r post readable =
      cc (ap (λ m. same m (codes "GET")) post, ap (λ m. same m (codes "DELETE")) post, readable)

  Owed-null :
      (m : Rpc) (s : Shimmed)
      → shown_id m.id ≡ codes "null"
      → Owed m s
      → (s.reply ≡ bare 202) ⊎ IsAnswer (codes "null") s.reply
  Owed-null m s e (inl shown) = inr (subst (λ id. IsAnswer id s.reply) e shown)
  Owed-null m s e (inr (taken, _)) = inl taken

  Owed-own :
      (m : Rpc) (s : Shimmed) → HasId m → shown_id m.id ≡ m.id → Owed m s → IsAnswer m.id s.reply
  Owed-own m s has own (inl shown) = subst (λ id. IsAnswer id s.reply) own shown
  Owed-own m s (full, strange) own (inr (taken, e)) = absurd (strange (sym own ∙ e))

  Replied-of_Owed :
      (m : Rpc) (s : Shimmed) → ¬ IsNotification m.method → Owed m s → Replied (some m) s
  Replied-of_Owed m s asks owed = elim (id_cases m) [
    | inl (has, own) ↦ answered m s has asks (Owed-own m s has own owed)
    | inr (has_none, e) ↦ unasked m s has_none asks (Owed-null m s e owed)
  ]

  on_message-Replied :
      (r : Inbound) (o : Option Rpc) → Replied o (on_message json client subject tool host r o)
  on_message-Replied r none = undecodable
  on_message-Replied r (some m) = elim (IsNotification-cases m.method) [
    | inl note ↦
        subst (Replied (some m))
          (sym (ap (dispatch json client subject tool host r m) (of_notified m.method note)))
          (noted m note)
    | inr asks ↦
        Replied-of_Owed m _ asks
          (dispatch-Owed r m (method_of m.method) (λ e. asks (notified_of m.method e)))
  ]

  -- A POST whose body can be read gets one reply, whatever the client makes of the requests for it.
  -- A body that cannot be decoded gets an error with a null id. A notification gets status 202. Any
  -- other message that asks for an answer gets one with its own id, and one that does not gets 202
  -- or an answer with a null id. For the first two nothing is sent to the tool app.
  pub mcp_shim-Replied :
      (r : Inbound)
      → r.method ≡ codes "POST"
      → r.readable ≡ true
      → Replied (json.rpc_of (take 4194304 r.body)) (mcp_shim json client subject tool host r)
  mcp_shim-Replied r post readable =
      let o = json.rpc_of (take 4194304 r.body) in
      subst (Replied o) (sym (mcp_shim-post r post readable)) (on_message-Replied r o)
