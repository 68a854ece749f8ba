-- ===== src/Inspect/Laws.antt =====
-- web/overlay/trajectory/PrivasysAttestationTab.tsx: what the tab shows for every call.
use attested_harness.Common.{
  ◌≡◌, sym, ap, inl, inr, Option, none, some, List, [], ◌∷◌, In, here, there, any, any-In, In-any,
  Text, same, same_iff, Bool-cases, Option-cases,
}
use attested_harness.Inspect.{
  App, server_apps, inherited, Known, unknown, member, listed, find_app, Pins, View, local_note,
  report, render_threw, attest_url, expected_of, pinned_hash, dependencies_of, is_unreadable,
  server_of, show, tab,
}
use attested_harness.Inspect.Named.{
  Named, server_of_sound, server_of_complete, listed-IsWhole, inherited-IsWhole,
}

-- What a lookup of a server's name finds.
data Found (server : Text) (apps : List (Text × App)) : Known → Type 0 where
  is_listed : (app : App) → In (server, app) apps → Found server apps (listed app)
  is_member :
      ((app : App) → ¬ In (server, app) apps) → In server inherited → Found server apps member
  is_unknown :
      ((app : App) → ¬ In (server, app) apps) → ¬ In server inherited → Found server apps unknown

not_here :
    (server name : Text) (app : App) (apps : List (Text × App))
    → ¬ (name ≡ server)
    → ((a : App) → ¬ In (server, a) apps)
    → (a : App) → ¬ In (server, a) ((name, app) ∷ apps)
not_here server name app apps other away a (here e) =
    other (sym (ap (λ (entry : Text × App). entry.0) e))
not_here server name app apps other away a (there i) = away a i

Found-later :
    (server name : Text) (app : App) (apps : List (Text × App)) (k : Known)
    → ¬ (name ≡ server)
    → Found server apps k
    → Found server ((name, app) ∷ apps) k
Found-later server name app apps k other (is_listed a i) = is_listed a (there i)
Found-later server name app apps k other (is_member away i) =
    is_member (not_here server name app apps other away) i
Found-later server name app apps k other (is_unknown away strange) =
    is_unknown (not_here server name app apps other away) strange

find_app-Found :
    (server : Text) (apps : List (Text × App)) → Found server apps (find_app server apps)
unfolding find_app
find_app-Found server [] = elim (Bool-cases (any (λ m. same m server) inherited)) [
  | inl e ↦ rw e (is_member (λ app i. elim i [ ]) (any-In server inherited e))
  | inr e ↦ rw e (is_unknown (λ app i. elim i [ ]) (λ i. cc (In-any server inherited i, e)))
]
find_app-Found server ((name, app) ∷ apps) = elim (Bool-cases (same name server)) [
  | inl e ↦ rw e (is_listed app (here (ap (λ n. (n, app)) (sym ((same_iff name server).0 e)))))
  | inr e ↦ rw e (
      Found-later server name app apps _ (λ h. cc ((same_iff name server).1 h, e))
        (find_app-Found server apps))
]

module _ (atob : Text → Option Text) where
  -- What the tab may show for a call.
  pub data TabSpec (wire : Text) (pins : Pins) : View → Type 0 where
    fleet_call :
        (server : Text) (app : App)
        → In (server, app) server_apps
        → Named server wire
        → TabSpec wire pins (
            report app.label
              (attest_url app)
              (expected_of atob (pinned_hash app.app_id (dependencies_of pins)))
              (is_unreadable pins))
    inherited_call :
        (server : Text) → In server inherited → Named server wire → TabSpec wire pins render_threw
    other_call :
        ((server : Text) (app : App) → In (server, app) server_apps → ¬ Named server wire)
        → ((server : Text) → In server inherited → ¬ Named server wire)
        → TabSpec wire pins (local_note wire)

  other_of_none :
      (wire : Text) (pins : Pins) → server_of wire ≡ none → TabSpec wire pins (local_note wire)
  other_of_none wire pins h =
      other_call
        (λ server app i n. cc (server_of_complete wire server (listed-IsWhole server app i) n, h))
        (λ server i n. cc (server_of_complete wire server (inherited-IsWhole server i) n, h))

  tab_of_Found :
      (wire server : Text) (pins : Pins) (k : Known)
      → server_of wire ≡ some server
      → Found server server_apps k
      → TabSpec wire pins (show atob wire pins k)
  tab_of_Found wire server pins k h (is_listed app i) =
      fleet_call server app i (server_of_sound wire server h)
  tab_of_Found wire server pins k h (is_member away i) =
      inherited_call server i (server_of_sound wire server h)
  tab_of_Found wire server pins k h (is_unknown away strange) =
      other_call
        (λ s app i n.
          let e : s ≡ server = cc (server_of_complete wire s (listed-IsWhole s app i) n, h) in
          away app (rw (← e) i))
        (λ s i n.
          let e : s ≡ server = cc (server_of_complete wire s (inherited-IsWhole s i) n, h) in
          strange (rw (← e) i))

  -- A call shows the report of a listed app exactly where its wire name is that of the app's
  -- server, with the app's own address, the pinned digest in hex if there is one, and the note on
  -- unreadable pins; rendering throws where the server has the name of a member that every object
  -- inherits; and any other call is said to run inside the enclave.
  pub tab-TabSpec : (wire : Text) (pins : Pins) → TabSpec wire pins (tab atob wire pins)
  unfolding tab
  tab-TabSpec wire pins = elim (Option-cases (server_of wire)) [
    | inl e ↦ rw e (other_of_none wire pins e)
    | inr (server, e) ↦ rw e (tab_of_Found wire server pins _ e (find_app-Found server server_apps))
  ]
