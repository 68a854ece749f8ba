-- ===== src/Inspect.antt =====
-- web/overlay/trajectory/PrivasysAttestationTab.tsx: what the Attestation tab shows for a tool
-- call, from the call's wire name and the pin summary that was fetched.
pub mod Markup
pub mod Mint
pub mod Hex
pub mod Named
pub mod Pinned
pub mod Laws
pub mod Tests
use attested_harness.Common.{
  ℕ, ◌+◌, ◌-◌, ◌/◌, ◌%◌, Bool, true, false, Option, none, some, List, [], ◌∷◌, ◌++◌, take, drop,
  any, Text, codes, same, strip_prefix, cut, ltb, if◌then◌else◌,
}

pub record App : Type 0 where
  pub app_id : Text
  pub label : Text

abbrev pub web_search : App
web_search = record {
  app_id = codes "82cb3965811d4ad298cac29e4837fd45";
  label = codes "Web Search (Brave)";
}

abbrev pub web_reader : App
web_reader = record {
  app_id = codes "09965ab93f2e480ea0417cce438f0696";
  label = codes "Web Reader (Lightpanda)";
}

abbrev pub drive : App
drive = record { app_id = codes "cf7a0d585468416884c341ebe0ce4025"; label = codes "Privasys Drive" }

-- `SERVER_APPS`.
abbrev pub server_apps : List (Text × App)
server_apps =
    (codes "web_search", web_search)
    ∷ (codes "web_reader", web_reader)
    ∷ (codes "drive", drive)
    ∷ []

-- The members that every object inherits, of those whose names have no double underscore.
abbrev pub inherited : List Text
inherited =
    codes "constructor"
    ∷ codes "hasOwnProperty"
    ∷ codes "isPrototypeOf"
    ∷ codes "propertyIsEnumerable"
    ∷ codes "toLocaleString"
    ∷ codes "toString"
    ∷ codes "valueOf"
    ∷ []

abbrev up_to : Text → Option (Text × Text) → Text
up_to s none = s
up_to s (some (before, behind)) = before

abbrev server_in : Option Text → Option Text
server_in none = none
server_in (some rest) = some (up_to rest (cut (codes "__") rest))

-- `serverOf`.
unfoldable pub server_of : Text → Option Text
server_of wire = server_in (strip_prefix (codes "mcp__") wire)

abbrev slice : ℕ → ℕ → Text → Text
slice first last s = take (last - first) (drop first s)

-- `dashed`: an app id in hex, in the form of a UUID.
unfoldable pub dashed : Text → Text
dashed hex =
    slice 0 8 hex
    ++ (b'-'
        ∷ (slice 8 12 hex
            ++ (b'-' ∷ (slice 12 16 hex ++ (b'-' ∷ (slice 16 20 hex ++ (b'-' ∷ drop 20 hex)))))))

abbrev pub digit : ℕ → ℕ
digit d = if ltb d 10 then 48 + d else 87 + d

-- `toString(16).padStart(2, '0')` of a code below 256, as `atob` gives them.
unfoldable pub hex_of : Text → Text
hex_of [] = []
hex_of (c ∷ raw) = digit (c / 16) ∷ digit (c % 16) ∷ hex_of raw

abbrev hex_or : Text → Option Text → Text
hex_or value none = value
hex_or value (some raw) = hex_of raw

-- An entry of the pin summary.
pub record Dep : Type 0 where
  pub app_id : Text
  pub code_hash : Option Text

-- `pins`: still undefined, null where the fetch failed, or the document with its dependencies, if
-- it has them.
pub data Pins : Type 0 where
  not_yet unreadable : Pins
  summary : (dependencies : Option (List Dep)) → Pins

abbrev pub dependencies_of : Pins → List Dep
dependencies_of (summary (some deps)) = deps
dependencies_of _ = []

-- The `code_hash` of the first entry for the app.
unfoldable pub pinned_hash : Text → List Dep → Option Text
pinned_hash id [] = none
pinned_hash id (dep ∷ deps) =
    let rest = pinned_hash id deps in if same dep.app_id id then dep.code_hash else rest

-- What the tab shows: the note on calls inside the enclave; a report for an app, with the digest
-- that it must have and whether the pins could not be read; or nothing, since rendering threw.
pub data View : Type 0 where
  local_note : (wire : Text) → View
  report : (label url : Text) (expected : Option Text) (unpinned : Bool) → View
  render_threw : View

abbrev pub is_unreadable : Pins → Bool
is_unreadable unreadable = true
is_unreadable _ = false

-- `SERVER_APPS[server]`.
pub data Known : Type 0 where
  unknown member : Known
  listed : App → Known

unfoldable pub find_app : Text → List (Text × App) → Known
find_app server [] = if any (λ m. same m server) inherited then member else unknown
find_app server ((name, app) ∷ apps) =
    let rest = find_app server apps in if same name server then listed app else rest

abbrev pub known_of : Option Text → Known
known_of none = unknown
known_of (some server) = find_app server server_apps

abbrev pub attest_url : App → Text
attest_url app =
    codes "https://api.developer.privasys.org/api/v1/apps/"
    ++ (dashed app.app_id ++ codes "/attest")

-- `atob` is the browser's; it fails where it throws.
module _ (atob : Text → Option Text) where
  -- `base64ToHex`.
  unfoldable pub base64_to_hex : Text → Text
  unfolding hex_of
  base64_to_hex value = hex_or value (atob value)

  abbrev pub expected_of : Option Text → Option Text
  expected_of none = none
  expected_of (some hash) = some (base64_to_hex hash)

  abbrev pub show : Text → Pins → Known → View
  show wire pins unknown = local_note wire
  show wire pins member = render_threw
  show wire pins (listed app) =
      report app.label (attest_url app)
        (expected_of (pinned_hash app.app_id (dependencies_of pins))) (is_unreadable pins)

  -- `PrivasysAttestationTab`.
  unfoldable pub tab : Text → Pins → View
  unfolding server_of dashed pinned_hash find_app base64_to_hex
  tab wire pins = show wire pins (known_of (server_of wire))
