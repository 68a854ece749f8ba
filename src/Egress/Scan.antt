-- ===== src/Egress/Scan.antt =====
-- proxy/cmd/egress-proxy/repro.go: the body of a model's event stream, which passes unchanged while
-- its lines are scanned; and the copying loop of `forward`. The JSON library is a parameter.
pub mod Numbers
pub mod Finite
pub mod Lossless
pub mod Copy
pub mod Bounds
use attested_harness.Common.{
  ℕ, zero, suc, ◌+◌, ◌-◌, Bool, true, false, not, ◌&&◌, ◌||◌, Option, none, some, List, [], ◌∷◌,
  ◌++◌, map, ltb, ◌==◌, if◌then◌else◌, length, take, drop, any, all, Text, codes, same,
  strip_prefix, includes, there,
}
use attested_harness.Egress.{trim_space, is_empty}

-- A decoded payload, each number as it is spelled. The fields of an object stand in the order in
-- which they are visited.
mutual
  pub data Json : Type 0 where
    null : Json
    bool : Bool → Json
    string : Text → Json
    number : Text → Json
    array : Items → Json
    object : Fields → Json

  pub data Items : Type 0 where
    no_items : Items
    item : Json → Items → Items

  pub data Fields : Type 0 where
    no_fields : Fields
    field : Text → Json → Fields → Fields

-- A step of a key path: a field, or a place of an array.
pub data Step : Type 0 where
  to_field : Text → Step
  to_item : ℕ → Step

-- The longest part without an `e` or `E`.
abbrev pub mantissa : Text → Text
mantissa [] = []
mantissa (c ∷ s) = let rest = mantissa s in if c == b'e' || c == b'E' then [] else c ∷ rest

abbrev pub is_zero_char : ℕ → Bool
is_zero_char c = c == b'0' || c == b'.'

-- `strings.Trim(mant, "0.") == ""`.
abbrev pub is_all_zero : Text → Bool
is_all_zero mant = all is_zero_char mant

abbrev signed_zero : Option Text → Bool
signed_zero none = false
signed_zero (some rest) = is_all_zero (mantissa rest)

-- The first test of `walk` on a number.
unfoldable pub is_negative_zero : Text → Bool
unfolding strip_prefix
is_negative_zero s = signed_zero (strip_prefix (codes "-") s)

-- The second test: an `n` or an `N`, or `Inf`.
unfoldable pub is_not_finite : Text → Bool
is_not_finite s = any (λ c. c == b'n' || c == b'N') s || includes s (codes "Inf")

-- A finding: the path, outermost step first, and the number.
pub record Finding : Type 0 where
  pub path : List Step
  pub spelling : Text

abbrev report_if : Bool → List Step → Text → List Finding
report_if true path s = record { path = path; spelling = s } ∷ []
report_if false path s = []

abbrev walk_number : List Step → Text → List Finding
walk_number path s = report_if (is_negative_zero s) path s ++ report_if (is_not_finite s) path s

-- `walk`.
unfoldable mutual
  pub walk : List Step → Json → List Finding
  walk path null = []
  walk path (bool b) = []
  walk path (string s) = []
  walk path (number s) = walk_number path s
  walk path (array items) = walk_items path 0 items
  walk path (object fields) = walk_fields path fields

  pub walk_items : List Step → ℕ → Items → List Finding
  walk_items path i no_items = []
  walk_items path i (item v items) =
      walk (path ++ (to_item i ∷ [])) v ++ walk_items path (suc i) items

  pub walk_fields : List Step → Fields → List Finding
  walk_fields path no_fields = []
  walk_fields path (field k v fields) =
      walk (path ++ (to_field k ∷ [])) v ++ walk_fields path fields

abbrev walk_decoded : Option Json → List Finding
walk_decoded none = []
walk_decoded (some v) = walk [] v

-- What the scan logs: a number that the client refuses, or the reproducibility block.
pub data Entry : Type 0 where
  refused_number : Finding → Entry
  reproducibility : (block : Text) → Entry

-- `reproScanBody`: what is left of the upstream body, the rest of the line that is being served,
-- and the log so far.
pub record Body : Type 0 where
  pub source : Text
  pub buf : Text
  pub logged : Bool
  pub lossy_found : ℕ
  pub log : List Entry

abbrev pub new_repro_scan_body : Text → Body
new_repro_scan_body source = record {
  source = source;
  buf = [];
  logged = false;
  lossy_found = 0;
  log = [];
}

-- `ReadBytes('\n')`: the line with its end, and what is left; at the end, what is left of it all.
unfoldable pub read_line : Text → Text × Text
read_line [] = ([], [])
read_line (c ∷ s) =
    let (line, rest) = read_line s in if c == b'\n' then (c ∷ [], s) else (c ∷ line, rest)

module _ (decode : Text → Option Json) (block_of : Text → Option (Option Text)) where
  -- `lossyKeys`.
  abbrev pub lossy_keys : Text → List Finding
  lossy_keys payload = walk_decoded (decode payload)

  -- The loop over the findings, which stops at the third of a response.
  abbrev add_findings : List Finding → Body → Body
  add_findings found b =
      let fresh = take (3 - b.lossy_found) found in
      record b {
        lossy_found = b.lossy_found + length fresh;
        log = b.log ++ map refused_number fresh;
      }

  abbrev scan_lossy : Text → Body → Body
  scan_lossy payload b =
      if ltb b.lossy_found 3 && not (same payload (codes "[DONE]"))
      then add_findings (lossy_keys payload) b
      else b

  abbrev log_block : Option (Option Text) → Body → Body
  log_block none b = b
  log_block (some none) b = record b { logged = true }
  log_block (some (some block)) b = record b {
    logged = true;
    log = b.log ++ (reproducibility block ∷ []);
  }

  -- The frame: `block_of` fails where it has no reproducibility field, and gives no block where the
  -- fields of the block cannot be decoded, so that there is nothing to log.
  abbrev scan_block : Text → Body → Body
  scan_block payload b =
      if includes payload (codes "\"reproducibility\"") then log_block (block_of payload) b else b

  abbrev scan_data : Option Text → Body → Body
  scan_data none b = b
  scan_data (some rest) b =
      let payload = trim_space rest in scan_block payload (scan_lossy payload b)

  -- `scan`.
  unfoldable pub scan : Text → Body → Body
  scan line b = if b.logged then b else scan_data (strip_prefix (codes "data:") (trim_space line)) b

  abbrev fill_buf : Text × Text → Body → Body
  fill_buf ([], rest) b = b
  fill_buf (c ∷ line, rest) b = record (scan (c ∷ line) b) { source = rest; buf = c ∷ line }

  abbrev refill : Text → Body → Body
  refill [] b = fill_buf (read_line b.source) b
  refill (c ∷ buf) b = b

  -- `Read` into a buffer of this size: the bytes that it gives, and whether it gives the end. The
  -- error of the upstream body comes when its bytes are gone, and again at every later read.
  unfoldable pub read : ℕ → Body → (Text × Bool) × Body
  unfolding read_line scan
  read size b =
      let filled = refill b.buf b in
      ((take size filled.buf, is_empty filled.buf), record filled { buf = drop size filled.buf })

  -- The copying loop of `forward`: what the client got, and whether the loop came to its end.
  unfoldable pub copy_body : (fuel size : ℕ) → Body → (Text × Bool) × Body
  copy_body zero size b = (([], false), b)
  copy_body (suc fuel) size b =
      let ((bytes, ended), next) = read size b in
      let ((rest, over), last) = copy_body fuel size next in
      if ended then ((bytes, true), next) else ((bytes ++ rest, over), last)
