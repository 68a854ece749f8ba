-- ===== src/Egress.antt =====
-- proxy/cmd/egress-proxy: the headers, requests and replies of the proxy, the acting subject
-- (subject.go) and the configuration (main.go).
pub mod Lookup
pub mod Forward
pub mod Shim
pub mod Scan
pub mod Ingress
pub mod Tests
use attested_harness.Common.{
  ◌++◌, ◌||◌, trim, cut, not, some, same, ◌∷◌, codes, [], if◌then◌else◌, filter, split, List,
  Option, Text, ℕ, Bool, true, false, ◌&&◌, none, leb, ◌==◌, there, strip_prefix,
}

-- A header map: each value with the canonical name that it stands under. The order of two values
-- counts only where they have one name.
abbrev pub Headers : Type 0
Headers = List (Text × Text)

-- `h.Get(name)`: the first value, and the empty text where there is none.
abbrev pub get : Text → Headers → Text
get name [] = []
get name ((k, v) ∷ h) = if same k name then v else get name h

-- `h.Del(name)`.
abbrev pub del : Text → Headers → Headers
del name h = filter (λ (entry : Text × Text). not (same entry.0 name)) h

-- `h.Set(name, value)`.
abbrev pub set : Text → Text → Headers → Headers
set name value h = (name, value) ∷ del name h

-- A request as a handler gets it: the decoded path of its URL, the query as it was sent, and
-- whether the body can be read as far as the handler reads it.
pub record Inbound : Type 0 where
  pub method : Text
  pub path : Text
  pub raw_query : Text
  pub headers : Headers
  pub body : Text
  pub readable : Bool

-- A request that goes out over the attested client.
pub record Outbound : Type 0 where
  pub method : Text
  pub host : Text
  pub url : Text
  pub headers : Headers
  pub body : Text

-- What the client makes of a request: an error, such as a refused dial or a URL that cannot be
-- parsed; or an answer, and `broken`, the error that reading its body up to the limit of the handler
-- meets.
pub data Upstream : Type 0 where
  refused : (error : Text) → Upstream
  answer : (status : ℕ) (headers : Headers) (body : Text) (broken : Option Text) → Upstream

abbrev pub is_empty : Text → Bool
is_empty [] = true
is_empty (c ∷ s) = false

abbrev pub on_behalf_of : Text
on_behalf_of = codes "X-Privasys-On-Behalf-Of"

abbrev pub authorization : Text
authorization = codes "Authorization"

-- `recordSubject`, on the subject that is bound, empty before the first sign-in.
unfoldable pub record_subject : (sub bound : Text) → Text
record_subject sub bound = if is_empty sub then bound else sub

pub record Config : Type 0 where
  pub model_host : Text
  pub tool_hosts : List (Text × Text)
  pub on_platform : Bool

-- `unicode.IsSpace`.
unfoldable pub is_go_space : ℕ → Bool
is_go_space c =
    (leb 9 c && leb c 13)
    || c == 32
    || c == 0x85
    || c == 0xa0
    || c == 0x1680
    || (leb 0x2000 c && leb c 0x200a)
    || c == 0x2028
    || c == 0x2029
    || c == 0x202f
    || c == 0x205f
    || c == 0x3000

abbrev trim_front : Text → Text
trim_front [] = []
trim_front (c ∷ s) = let rest = trim_front s in if is_go_space c then rest else c ∷ s

abbrev trim_last : ℕ → Text → Text
trim_last c [] = if is_go_space c then [] else c ∷ []
trim_last c (d ∷ s) = c ∷ d ∷ s

abbrev trim_back : Text → Text
trim_back [] = []
trim_back (c ∷ s) = trim_last c (trim_back s)

-- `strings.TrimSpace`.
abbrev pub trim_space : Text → Text
trim_space s = trim_back (trim_front s)

abbrev entry_of : Option (Text × Text) → List (Text × Text)
entry_of none = []
entry_of (some (name, host)) = if is_empty name || is_empty host then [] else (name, host) ∷ []

-- The loop of `loadConfig` over HARNESS_TOOL_HOSTS. A later entry of a name replaces an earlier
-- one, so that the last stands first.
unfoldable pub load_entries : List Text → List (Text × Text) → List (Text × Text)
unfolding cut strip_prefix is_go_space
load_entries [] hosts = hosts
load_entries (kv ∷ kvs) hosts =
    load_entries kvs (entry_of (cut (codes "=") (trim_space kv)) ++ hosts)

unfoldable pub load_tool_hosts : Text → List (Text × Text)
unfolding load_entries
load_tool_hosts variable = load_entries (split b',' variable) []

-- `cfg.toolHosts[name]`, empty where there is no entry.
abbrev pub host_of : Text → List (Text × Text) → Text
host_of name hosts = get name hosts
