-- ===== src/Inspect/Named.antt =====
-- web/overlay/trajectory/PrivasysAttestationTab.tsx, serverOf: the wire names of a server's tools.
use attested_harness.Common.{
  ◌≡◌, refl, sym, ap, ◌∙◌, ◌⊎◌, inl, inr, some, [], ◌++◌, append-nil, In, Text, All-In, codes,
  strip_prefix, strip_prefix_sound, cut, cut_sound, Option-cases,
}
use attested_harness.Inspect.{App, server_apps, inherited, server_of, server_in, up_to}

-- The wire name is that of the server, alone or with a tool's name behind it.
abbrev pub Named : Text → Text → Type 0
Named server wire =
    (rest : Text) × (wire ≡ codes "mcp__" ++ (server ++ rest))
    × ((rest ≡ []) ⊎ ((tool : Text) × (rest ≡ codes "__" ++ tool)))

up_to_sound :
    (rest server : Text)
    → up_to rest (cut (codes "__") rest) ≡ server
    → (behind : Text) × (rest ≡ server ++ behind)
      × ((behind ≡ []) ⊎ ((tool : Text) × (behind ≡ codes "__" ++ tool)))
up_to_sound rest server h = elim (Option-cases (cut (codes "__") rest)) [
  | inl none_there ↦
      let e : rest ≡ server = sym (ap (up_to rest) none_there) ∙ h in
      ([], e ∙ sym (append-nil server), inl refl)
  | inr ((p, q), found) ↦
      let e : p ≡ server = sym (ap (up_to rest) found) ∙ h in
      (
        codes "__" ++ q,
        (cut_sound (codes "__") rest p q found).0 ∙ ap (λ l. l ++ (codes "__" ++ q)) e,
        inr (q, refl),
      )
]

pub server_of_sound : (wire server : Text) → server_of wire ≡ some server → Named server wire
unfolding server_of
server_of_sound wire server h = elim (Option-cases (strip_prefix (codes "mcp__") wire)) [
  | inl missed ↦ absurd (cc (ap server_in missed, h))
  | inr (rest, e) ↦
      let same_server : up_to rest (cut (codes "__") rest) ≡ server = cc (ap server_in e, h) in
      let (behind, parts, shape) = up_to_sound rest server same_server in
      (
        behind,
        strip_prefix_sound (codes "mcp__") wire rest e ∙ ap (λ l. codes "mcp__" ++ l) parts,
        shape,
      )
]

-- A server's name that `split` leaves whole, whatever tool follows.
abbrev pub IsWhole : Text → Type 0
IsWhole server =
    (up_to (server ++ []) (cut (codes "__") (server ++ [])) ≡ server)
    × ((tool : Text)
        → up_to (server ++ (codes "__" ++ tool)) (cut (codes "__") (server ++ (codes "__" ++ tool)))
          ≡ server)

pub server_of_complete :
    (wire server : Text) → IsWhole server → Named server wire → server_of wire ≡ some server
unfolding server_of strip_prefix
server_of_complete wire server (alone, with_tool) (rest, e, inl bare) =
    rw (e, bare) (ap (λ s. some s) alone)
server_of_complete wire server (alone, with_tool) (rest, e, inr (tool, follows)) =
    rw (e, follows) (ap (λ s. some s) (with_tool tool))

pub listed-IsWhole : (server : Text) (app : App) → In (server, app) server_apps → IsWhole server
unfolding cut strip_prefix
listed-IsWhole server app i =
    All-In (λ (entry : Text × App). IsWhole entry.0) (server, app) server_apps
      ((refl, λ t. refl), ((refl, λ t. refl), ((refl, λ t. refl), tt))) i

pub inherited-IsWhole : (server : Text) → In server inherited → IsWhole server
unfolding cut strip_prefix
inherited-IsWhole server i =
    All-In IsWhole server inherited
      (
        (refl, λ t. refl),
        (
          (refl, λ t. refl),
          (
            (refl, λ t. refl),
            ((refl, λ t. refl), ((refl, λ t. refl), ((refl, λ t. refl), ((refl, λ t. refl), tt)))),
          ),
        ),
      )
      i
