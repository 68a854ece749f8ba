-- ===== src/Shell/SignIn/Claims.antt =====
-- web/privasys-shell.js, claimFromJwt and getTokenForAudience. Base64 and JSON decoding are the
-- browser's, and parameters here: each fails where it throws.
use mathlib.Core.Path.{ap₂}
use attested_harness.Common.{
  ℕ, ◌≡◌, refl, ap, ◌∙◌, Option, none, some, List, [], ◌∷◌, ◌++◌, map, Text, Free, ◌==◌, split,
  trim, split-append_break, if◌then◌else◌, arith,
}

-- A field of a decoded payload: a text, or anything else.
pub data Field : Type 0 where
  text_field : Text → Field
  other_field : Field

-- `replace(/-/g, '+').replace(/_/g, '/')`.
unfoldable pub from_url_alphabet : ℕ → ℕ
from_url_alphabet c = if c == b'-' then b'+' else if c == b'_' then b'/' else c

-- The second part of a text cut at its dots.
abbrev second : List Text → Option Text
second [] = none
second (h ∷ []) = none
second (h ∷ p ∷ ps) = some p

abbrev nonempty : Text → Option Text
nonempty [] = none
nonempty (c ∷ s) = some (c ∷ s)

abbrev shown : Option Field → Option Text
shown none = none
shown (some other_field) = none
shown (some (text_field t)) = nonempty (trim t)

infixl 5 ◌>>=◌
abbrev ◌>>=◌ : {A B : Type 0} → Option A → (A → Option B) → Option B
none >>= k = none
some a >>= k = k a

module _ (atob : Text → Option Text) (field : (json claim : Text) → Option Field) where
  -- `claimFromJwt`: every failure on the way gives undefined.
  unfoldable pub claim_from_jwt : (jwt claim : Text) → Option Text
  unfolding from_url_alphabet
  claim_from_jwt jwt claim = do
    payload ← second (split b'.' jwt)
    json ← atob (map from_url_alphabet payload)
    shown (field json claim)

-- What the issuer of a token does to the base64 of its payload.
abbrev pub to_url_alphabet : ℕ → ℕ
to_url_alphabet c = if c == b'+' then b'-' else if c == b'/' then b'_' else c

from_url-to_url :
    (body : Text)
    → Free b'-' body
    → Free b'_' body
    → map from_url_alphabet (map to_url_alphabet body) ≡ body
unfolding from_url_alphabet
from_url-to_url [] h k = refl
from_url-to_url (c ∷ body) (h, hs) (k, ks) =
    ap₂ (λ (d : ℕ) (t : Text). d ∷ t) (ground (arith, h, k)) (from_url-to_url body hs ks)

to_url-Free : (body : Text) → Free b'.' body → Free b'.' (map to_url_alphabet body)
to_url-Free [] h = tt
to_url-Free (c ∷ body) (h, hs) = (ground (arith, h), to_url-Free body hs)

module _ (atob : Text → Option Text) (field : (json claim : Text) → Option Field) where
  -- From a token whose payload was written in the URL alphabet the shell reads the claim of that
  -- payload: where the decoded payload has it as a text that is not blank, that text without the
  -- white space around it, and else nothing.
  pub claim_from_jwt-encoded :
      (head body signature claim : Text)
      → Free b'.' head
      → Free b'.' body
      → Free b'-' body
      → Free b'_' body
      → claim_from_jwt atob field
          (head ++ (b'.' ∷ (map to_url_alphabet body ++ (b'.' ∷ signature))))
          claim
        ≡ (atob body >>= λ json. shown (field json claim))
  unfolding claim_from_jwt
  claim_from_jwt-encoded head body signature claim h b m u =
      ap
        (λ parts. second parts >>= λ payload.
          atob (map from_url_alphabet payload) >>= λ json. shown (field json claim))
        (split-append_break b'.' head (map to_url_alphabet body ++ (b'.' ∷ signature)) h
          ∙ ap (λ l. head ∷ l)
              (split-append_break b'.' (map to_url_alphabet body) signature (to_url-Free body b)))
      ∙ ap (λ t. atob t >>= λ json. shown (field json claim)) (from_url-to_url body m u)
