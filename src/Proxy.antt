-- ===== src/Proxy.antt =====
-- proxy/internal/attested: the declared dependency set of the egress proxy (depset.go), and the
-- gates that a dialled peer passes before its connection is pooled (transport.go).
pub mod Gate
pub mod Refresh
pub mod Pool
pub mod Tests
use attested_harness.Common.{
  ◌+◌, ◌≡◌, ℕ, Bool, true, false, not, ◌&&◌, Option, none, some, List, [], ◌∷◌, ◌++◌, map, Text,
  same, leb, ltb, ◌==◌, if◌then◌else◌,
}

-- The dependency set, over the type of its entries. `configured` is false off platform.
pub record DepSet (E : Type 0) : Type 0 where
  pub entries : List E
  pub loaded : Bool
  pub configured : Bool

-- How the manager answers a refresh: the request or the reading of its body failed; or a status,
-- with the decoded body, which fails where the decoder does and may leave the dependencies out.
pub data Answer (E : Type 0) : Type 0 where
  failed : Answer E
  answered : (status : ℕ) (payload : Option (Option (List E))) → Answer E

abbrev is_empty : {E : Type 0} → List E → Bool
is_empty [] = true
is_empty (e ∷ es) = false

-- `Enabled`.
unfoldable pub enabled : {E : Type 0} → DepSet E → Bool
enabled d = d.loaded && not (is_empty d.entries)

abbrev pub declared : {E : Type 0} → Option (List E) → List E
declared none = []
declared (some es) = es

-- What a refresh does: its error, if it has one, the set after it, and whether OnChange is called.
pub record Refreshed (E : Type 0) : Type 0 where
  pub is_error : Bool
  pub next : DepSet E
  pub changed : Bool

abbrev unchanged : {E : Type 0} → Bool → DepSet E → Refreshed E
unchanged is_error d = record { is_error = is_error; next = d; changed = false }

-- What the gate says of a peer.
pub data Verdict : Type 0 where
  admitted : Verdict
  mismatched undeclared : Verdict

abbrev pub verdict_of : Bool → Verdict
verdict_of true = admitted
verdict_of false = mismatched

abbrev unlisted : Bool → Verdict
unlisted true = admitted
unlisted false = undeclared

-- `strings.EqualFold`, and `strings.ToLower`, on digests in hex.
abbrev pub lower : ℕ → ℕ
lower c = if leb b'A' c && leb c b'Z' then c + 32 else c

abbrev digest_or : Option Text → Text
digest_or none = []
digest_or (some got) = got

abbrev pub digest_matches : Option Text → Text → Bool
digest_matches got want = same (map lower (digest_or got)) (map lower want)

abbrev pub is_granted : Option Text → Bool
is_granted none = false
is_granted (some want) = true

abbrev pub is_admitted : Verdict → Bool
is_admitted admitted = true
is_admitted _ = false

-- The entries and the peers are those of the attestation library: an entry has an app id, a peer,
-- with the kind of its enclave, an app id that is empty where its certificate has none, and
-- perhaps a code hash in hex; `matches` is MatchDependency and `fold` FoldIdentityHex.
module _ {E P : Type 0} (entry_id : E → Text) (app_id : P → Text) (code_hash : P → Option Text)
    (matches : P → E → Bool) (fold : List E → Text) where
  abbrev pub fold_of : List E → Text
  fold_of [] = []
  fold_of (e ∷ es) = fold (e ∷ es)

  abbrev install : List E → DepSet E → Refreshed E
  install next d = record {
    is_error = false;
    next = record d { entries = next; loaded = true };
    changed = d.loaded && not (same (fold_of d.entries) (fold_of next));
  }

  abbrev decode : Option (Option (List E)) → DepSet E → Refreshed E
  decode none d = unchanged true d
  decode (some payload) d = install (declared payload) d

  abbrev take_answer : Answer E → DepSet E → Refreshed E
  take_answer failed d = unchanged true d
  take_answer (answered status payload) d =
      if status == 404
      then unchanged false d
      else if status == 200
      then decode payload d
      else unchanged true d

  -- `Refresh`.
  unfoldable pub refresh : Answer E → DepSet E → Refreshed E
  refresh a d = if d.configured then take_answer a d else unchanged false d

  abbrev has_id : P → E → Bool
  has_id peer e = same (entry_id e) (app_id peer) && not (is_empty (app_id peer))

  -- The loop of `VerifyPeer`: the first entry with the peer's app id decides.
  unfoldable pub verify_entries : List E → P → Bool → Verdict
  verify_entries [] peer grant = unlisted grant
  verify_entries (e ∷ es) peer grant =
      let rest = verify_entries es peer grant in
      if has_id peer e then verdict_of (matches peer e) else rest

  -- `VerifyPeer`.
  unfoldable pub verify_peer : DepSet E → P → Bool → Verdict
  unfolding enabled verify_entries
  verify_peer d peer grant = if enabled d then verify_entries d.entries peer grant else admitted

  -- The gates of `dialVerified` behind the attestation: the dependency set, with the grant of the
  -- host's expected digest, then that digest itself.
  abbrev pin_holds : Option Text → P → Bool
  pin_holds none peer = true
  pin_holds (some want) peer = digest_matches (code_hash peer) want

  -- The expected digest is missing where the host has none or an empty one.
  unfoldable pub dial_admits : DepSet E → (expected : Option Text) → P → Bool
  unfolding verify_peer
  dial_admits d expected peer =
      is_admitted (verify_peer d peer (is_granted expected)) && pin_holds expected peer
