-- ===== src/Shell/Views.antt =====
-- web/privasys-shell.js: the configuration, the options of the sign-in frame, the views of the gate
-- and what the shell offers to the application.
use attested_harness.Common.{text, Bool, List, [], ◌∷◌, ◌++◌, if◌then◌else◌, Text, codes, same}
use attested_harness.Page.{Node}
use attested_harness.Page.Builder.{
  Child, is_text, is_function, of_text, of_node, of_null, set_attribute, el,
}

-- `Object.assign` of texts onto an object of texts.
unfoldable pub assign : List (Text × Text) → List (Text × Text) → List (Text × Text)
assign object [] = object
assign object ((k, v) ∷ more) = assign (set_attribute k v object) more

abbrev pub defaults : List (Text × Text)
defaults =
    (codes "apiBase", codes "https://api-test.privasys.org")
    ∷ (codes "authOrigin", codes "https://privasys.id")
    ∷ (codes "rpId", codes "privasys.id")
    ∷ (codes "clientId", codes "privasys-platform")
    ∷ (codes "appName", codes "Privasys Harness")
    ∷ (codes "appId", codes "590ebdc3-1b63-401f-bbb8-22d5f3886c5e")
    ∷ (codes "appHost", codes "attested-harness.apps.test.privasys.org")
    ∷ (codes "attestBase", codes "https://api.developer.test.privasys.org")
    ∷ (codes "verifyQuoteUrl", codes "https://as.privasys.org/verify-quote")
    ∷ (codes "brokerUrl", codes "wss://relay.privasys.org/relay")
    ∷ []

-- `CFG`, with the object that the deployment injects, empty where there is none.
unfoldable pub cfg : List (Text × Text) → List (Text × Text)
unfolding assign
cfg injected = assign defaults injected

-- `CFG[key]`, for the keys that have a default.
abbrev pub setting : Text → List (Text × Text) → Text
setting key [] = codes "undefined"
setting key ((k, v) ∷ object) = let rest = setting key object in if same k key then v else rest

pub record Pitch : Type 0 where
  pub logo_url : Text
  pub title : Text
  pub description : Text
  pub bullets : List Text

-- `HARNESS_PITCH`.
abbrev pub harness_pitch : Text → Pitch
harness_pitch origin = record {
  logo_url = origin ++ codes "/privasys/privasys-harness-logo.svg";
  title = codes "A coding agent you can verify.";
  description = text (
      "The Privasys Harness runs its agent and model inside hardware-protected "
      ∷ "enclaves. The operator can never read your prompts or the agent’s work, "
      ∷ "and you can verify it yourself by remote attestation." ∷ []);
  bullets =
      codes "Sealed browser-to-enclave transport. The gateway only sees ciphertext."
      ∷ codes "Every model call is attested Confidential AI. No bearer keys."
      ∷ codes "Each tool the agent uses is a separately verified enclave."
      ∷ codes "No passwords. Sign in with the Privasys Wallet on your phone."
      ∷ [];
}

-- The options of `new AuthFrame`, without the container.
pub record FrameOptions : Type 0 where
  pub api_base : Text
  pub auth_origin : Text
  pub rp_id : Text
  pub client_id : Text
  pub app_name : Text
  pub broker_url : Text
  pub scope : List Text
  pub presentation : Text
  pub methods : List Text
  pub pitch : Pitch
  pub display_name : Text
  pub app_logo_url : Text
  pub relay_app_host : Text

abbrev pub frame_options : (origin : Text) → List (Text × Text) → FrameOptions
frame_options origin conf = record {
  api_base = setting (codes "apiBase") conf;
  auth_origin = setting (codes "authOrigin") conf;
  rp_id = setting (codes "rpId") conf;
  client_id = setting (codes "clientId") conf;
  app_name = setting (codes "appName") conf;
  broker_url = setting (codes "brokerUrl") conf;
  scope = codes "openid" ∷ codes "profile" ∷ codes "offline_access" ∷ [];
  presentation = codes "page";
  methods = codes "wallet" ∷ [];
  pitch = harness_pitch origin;
  display_name = codes "Privasys Harness";
  app_logo_url = origin ++ codes "/privasys/privasys-logo.mini.svg";
  relay_app_host = setting (codes "appHost") conf;
}

-- `attestUrl` of the shell's object.
abbrev pub shell_attest_url : List (Text × Text) → Text
shell_attest_url conf =
    setting (codes "attestBase") conf
    ++ (codes "/api/v1/apps/" ++ (setting (codes "appId") conf ++ codes "/attest"))

-- What a button of the gate does.
pub data Pressed : Type 0 where
  calls_run : Pressed

module _ (source_of : Pressed → Text) where
  abbrev pub box : Text → List (Child Pressed) → Node Pressed
  box class_name children =
      el source_of (codes "div") ((codes "class", is_text class_name) ∷ []) children

  abbrev optional_sub : Text → Child Pressed
  optional_sub [] = of_null
  optional_sub (c ∷ sub) = of_node (box (codes "pv-card-sub") (of_text (c ∷ sub) ∷ []))

  -- `spinnerCard`.
  unfoldable pub spinner_card : (title sub : Text) → Node Pressed
  unfolding el
  spinner_card title sub = box (codes "pv-card pv-center") (
      of_node (box (codes "pv-spinner") [])
      ∷ of_node (box (codes "pv-card-title") (of_text title ∷ []))
      ∷ optional_sub sub
      ∷ [])

  -- The connecting toast.
  unfoldable pub connecting_toast : Node Pressed
  unfolding spinner_card
  connecting_toast = box (codes "pv-connecting") (
      of_node (
        spinner_card (codes "Connecting…") (
          text (
            "Restoring your secure session. If your phone shows a Privasys "
            ∷ "approval request, approve it there." ∷ [])))
      ∷ [])

  abbrev pub sign_in_button : Node Pressed
  sign_in_button =
      el source_of (codes "button")
        ((codes "class", is_text (codes "pv-btn pv-btn-primary"))
          ∷ (codes "onclick", is_function calls_run)
          ∷ [])
        (of_text (codes "Sign in") ∷ [])

  -- The panel of `showAuthFallback`.
  unfoldable pub fallback_panel : (message : Text) → (closed : Bool) → Node Pressed
  unfolding el
  fallback_panel message closed = box (codes "pv-card pv-center") (
      of_node (
        box (codes "pv-card-title")
          (of_text (if closed then codes "Sign-in closed" else codes "Sign-in problem") ∷ []))
      ∷ of_node (box (codes "pv-card-sub") (of_text message ∷ []))
      ∷ of_node sign_in_button
      ∷ [])

-- What `getTokenForAudience` asks of the frame, in order.
pub data Asked : Type 0 where
  get_session : Asked
  mint : (audience : Text) → Asked

-- The frame, as the function finds it: missing or without the minting function; one whose
-- `getSession` throws at once; or one whose `getSession` gives a promise, which settles either way.
pub data Frame : Type 0 where
  not_ready : Frame
  throws_at_once : (error : Text) → Frame
  primed : (resolves : Bool) → Frame

pub data Minted : Type 0 where
  failed : (error : Text) → Minted
  token : Text → Minted

-- `getTokenForAudience`, with what the frame makes of a request for a token.
abbrev pub get_token_for_audience :
    (Text → Minted) → Frame → (audience : Text) → Minted × List Asked
get_token_for_audience of_frame not_ready audience = (failed (codes "auth frame not ready"), [])
get_token_for_audience of_frame (throws_at_once e) audience = (failed e, get_session ∷ [])
get_token_for_audience of_frame (primed resolves) audience =
    (of_frame audience, get_session ∷ mint audience ∷ [])
