-- ===== src/Inspect/Tests.antt =====
-- The Attestation tab at concrete calls.
use attested_harness.Common.{
  drop, ◌≡◌, refl, true, false, Option, none, some, [], ◌∷◌, All, Text, codes, strip_prefix, cut,
  if◌then◌else◌, arith, List,
}
use attested_harness.Inspect.{
  App, drive, known_of, listed, attest_url, Pins, not_yet, unreadable, summary, local_note, report,
  render_threw, tab, dashed, base64_to_hex, hex_of, pinned_hash, find_app, server_of,
}
use attested_harness.Inspect.Hex.{base64_to_hex_injective}
use attested_harness.Inspect.Pinned.{Entry, code_hash_of, digest_in, tab-digest_in}
use attested_harness.Inspect.Laws.{TabSpec, tab-TabSpec}
use attested_harness.Inspect.Mint.{of_call, not_ready, unminted, ask_all, ask_all-single}

tested : Unit {0}
unfolding tab dashed base64_to_hex hex_of pinned_hash find_app server_of strip_prefix cut
tested = tt

-- A decoder that reads a text as it stands.
abbrev plain : Text → Option Text
plain t = some t

abbrev pinned : Pins
pinned = summary (
    some (
      record { app_id = codes "x"; code_hash = none }
      ∷ record { app_id = codes "cf7a0d585468416884c341ebe0ce4025"; code_hash = some (codes "AZ") }
      ∷ []))

drive_test :
    tab plain (codes "mcp__drive__list_files") pinned
    ≡ report
        (codes "Privasys Drive")
        (codes
          "https://api.developer.privasys.org/api/v1/apps/cf7a0d58-5468-4168-84c3-41ebe0ce4025/attest")
        (some (codes "415a"))
        false
unfolding tested
drive_test = refl

shell_test : tab plain (codes "bash") unreadable ≡ local_note (codes "bash")
unfolding tested
shell_test = refl

-- A server that is not listed is said to run inside the enclave.
unlisted_test : tab plain (codes "mcp__mail__send") not_yet ≡ local_note (codes "mcp__mail__send")
unfolding tested
unlisted_test = refl

inherited_test : tab plain (codes "mcp__constructor__new") not_yet ≡ render_threw
unfolding tested
inherited_test = refl

tab-TabSpec_example :
    TabSpec plain
      (codes "mcp__drive__list_files")
      pinned
      (tab plain (codes "mcp__drive__list_files") pinned)
tab-TabSpec_example = tab-TabSpec plain (codes "mcp__drive__list_files") pinned

-- A decoder that leaves out what stands first.
abbrev behind : Text → Option Text
behind t = some (drop 1 t)

base64_to_hex_injective_example : codes "AZ" ≡ codes "AZ"
unfolding tested
base64_to_hex_injective_example =
    base64_to_hex_injective behind (codes "xAZ") (codes "yAZ") (codes "AZ") (codes "AZ") refl refl
      (omega arith, (omega arith, tt)) (omega arith, (omega arith, tt)) refl

dashed_test :
    dashed (codes "cf7a0d585468416884c341ebe0ce4025") ≡ codes "cf7a0d58-5468-4168-84c3-41ebe0ce4025"
unfolding tested
dashed_test = refl

-- The set requires two code hashes of Drive, and the last one counts. The encoding of these tests
-- keeps a text as it stands.
abbrev drive_set : List Entry
drive_set =
    record { app_id = codes "other"; required_oids = []; measurements = [] }
    ∷ record {
      app_id = drive.app_id;
      required_oids =
          (codes "3.2", codes "a") ∷ (codes "3.1", codes "b") ∷ (codes "3.2", codes "AZ") ∷ [];
      measurements = [];
    }
    ∷ []

abbrev same_text : Text → Text
same_text v = v

tab-digest_in_example :
    (app : App) × (known_of (server_of (codes "mcp__drive__search")) ≡ listed app)
    × (attest_url drive ≡ attest_url app)
    × (some (codes "415a") ≡ digest_in (codes "3.2") same_text app.app_id drive_set)
    × (false ≡ false)
unfolding tested code_hash_of
tab-digest_in_example =
    tab-digest_in (codes "3.2") same_text plain (λ v. refl) refl (codes "mcp__drive__search")
      drive_set drive.label (attest_url drive) (some (codes "415a")) false refl

ask_all-single_example :
    let (ps, end) = ask_all (true ∷ false ∷ true ∷ []) unminted in
    All (λ p. p ≡ (if true then of_call 0 else not_ready)) ps
    × (end.calls ≡ (if true then 1 else 0))
ask_all-single_example = ask_all-single true (false ∷ true ∷ [])
