-- ===== src/Egress/Scan/Bounds.antt =====
-- proxy/cmd/egress-proxy/repro.go: how much the scan of one response logs.
use attested_harness.Common.{
  one_if, ℕ, zero, suc, ◌+◌, ◌-◌, ◌≤◌, ◌≡◌, refl, subst, Bool, true, false, not, ◌&&◌, Option, none,
  some, List, [], ◌∷◌, ◌++◌, map, arith, ltb, if_split, length, take, Text, codes, same, ◌∙◌,
  strip_prefix, includes,
}
use attested_harness.Egress.Scan.{
  read_line, new_repro_scan_body, trim_space, refill, scan_block, copy_body, scan_data, scan, read,
  fill_buf, Json, Body, Entry, Finding, refused_number, reproducibility, scan_lossy, add_findings,
  log_block, lossy_keys,
}

abbrev is_finding : Entry → ℕ
is_finding (refused_number f) = 1
is_finding (reproducibility block) = 0

abbrev is_block : Entry → ℕ
is_block (refused_number f) = 0
is_block (reproducibility block) = 1

abbrev sum_of : (Entry → ℕ) → List Entry → ℕ
sum_of weight [] = 0
sum_of weight (x ∷ xs) = weight x + sum_of weight xs

-- The numbers that the log tells of, and the reproducibility blocks.
abbrev pub findings_in : List Entry → ℕ
findings_in log = sum_of is_finding log

abbrev pub blocks_in : List Entry → ℕ
blocks_in log = sum_of is_block log

-- The counter is true to the log and stops at three, and there is a block only where `logged` says.
abbrev pub IsBounded : Body → Type 0
IsBounded b =
    (findings_in b.log ≡ b.lossy_found) × (b.lossy_found ≤ 3) × (blocks_in b.log ≤ one_if b.logged)

sum_of-append :
    (weight : Entry → ℕ) (xs ys : List Entry)
    → sum_of weight (xs ++ ys) ≡ sum_of weight xs + sum_of weight ys
sum_of-append weight [] ys = omega arith
sum_of-append weight (x ∷ xs) ys = omega (arith, sum_of-append weight xs ys)

findings_in-map : (found : List Finding) → findings_in (map refused_number found) ≡ length found
findings_in-map [] = refl
findings_in-map (f ∷ found) = omega (arith, findings_in-map found)

blocks_in-map : (found : List Finding) → blocks_in (map refused_number found) ≡ 0
blocks_in-map [] = refl
blocks_in-map (f ∷ found) = omega (arith, blocks_in-map found)

length-take_le : (n : ℕ) (found : List Finding) → length (take n found) ≤ n
length-take_le zero found = omega arith
length-take_le (suc n) [] = omega arith
length-take_le (suc n) (f ∷ found) = omega (arith, length-take_le n found)

module _ (decode : Text → Option Json) (block_of : Text → Option (Option Text)) where
  add_findings-IsBounded :
      (found : List Finding) (b : Body)
      → IsBounded b
      → IsBounded (add_findings decode block_of found b)
  add_findings-IsBounded found b (counted, few, block) =
      let fresh = take (3 - b.lossy_found) found in
      (
        omega (
          arith,
          counted,
          sum_of-append is_finding b.log (map refused_number fresh),
          findings_in-map fresh,
        ),
        omega (arith, few, length-take_le (3 - b.lossy_found) found),
        omega (
          arith,
          block,
          sum_of-append is_block b.log (map refused_number fresh),
          blocks_in-map fresh,
        ),
      )

  scan_lossy-IsBounded :
      (payload : Text) (b : Body)
      → IsBounded b
      → IsBounded (scan_lossy decode block_of payload b)
        × ((scan_lossy decode block_of payload b).logged ≡ b.logged)
  scan_lossy-IsBounded payload b h =
      if_split (λ (c : Body). IsBounded c × (c.logged ≡ b.logged))
        (ltb b.lossy_found 3 && not (same payload (codes "[DONE]")))
        (add_findings decode block_of (lossy_keys decode block_of payload) b) b
        (λ _. (add_findings-IsBounded (lossy_keys decode block_of payload) b h, refl))
        (λ _. (h, refl))

  log_block-IsBounded :
      (raw : Option (Option Text)) (b : Body)
      → b.logged ≡ false
      → IsBounded b
      → IsBounded (log_block decode block_of raw b)
  log_block-IsBounded none b fresh h = h
  log_block-IsBounded (some none) b fresh (counted, few, block) =
      (counted, few, omega (arith, subst (λ l. blocks_in b.log ≤ one_if l) fresh block))
  log_block-IsBounded (some (some text)) b fresh (counted, few, block) =
      let added = reproducibility text ∷ [] in
      (
        omega (arith, counted, sum_of-append is_finding b.log added),
        few,
        omega (
          arith,
          subst (λ l. blocks_in b.log ≤ one_if l) fresh block,
          sum_of-append is_block b.log added,
        ),
      )

  scan_block-IsBounded :
      (payload : Text) (b : Body)
      → b.logged ≡ false
      → IsBounded b
      → IsBounded (scan_block decode block_of payload b)
  scan_block-IsBounded payload b fresh h =
      if_split IsBounded (includes payload (codes "\"reproducibility\""))
        (log_block decode block_of (block_of payload) b) b
        (λ _. log_block-IsBounded (block_of payload) b fresh h) (λ _. h)

  scan_data-IsBounded :
      (data_part : Option Text) (b : Body)
      → b.logged ≡ false
      → IsBounded b
      → IsBounded (scan_data decode block_of data_part b)
  scan_data-IsBounded none b fresh h = h
  scan_data-IsBounded (some rest) b fresh h =
      let payload = trim_space rest in
      let (kept, still) = scan_lossy-IsBounded payload b h in
      scan_block-IsBounded payload (scan_lossy decode block_of payload b) (still ∙ fresh) kept

  scan-IsBounded : (line : Text) (b : Body) → IsBounded b → IsBounded (scan decode block_of line b)
  unfolding scan
  scan-IsBounded line b h =
      let data_part = strip_prefix (codes "data:") (trim_space line) in
      if_split IsBounded b.logged b (scan_data decode block_of data_part b) (λ _. h)
        (λ fresh. scan_data-IsBounded data_part b fresh h)

  fill_buf-IsBounded :
      (parts : Text × Text) (b : Body) → IsBounded b → IsBounded (fill_buf decode block_of parts b)
  fill_buf-IsBounded ([], rest) b h = h
  fill_buf-IsBounded (c ∷ line, rest) b h = scan-IsBounded (c ∷ line) b h

  refill-IsBounded :
      (buf : Text) (b : Body) → IsBounded b → IsBounded (refill decode block_of buf b)
  refill-IsBounded [] b h = fill_buf-IsBounded (read_line b.source) b h
  refill-IsBounded (c ∷ buf) b h = h

  read-IsBounded : (size : ℕ) (b : Body) → IsBounded b → IsBounded (read decode block_of size b).1
  unfolding read
  read-IsBounded size b h = refill-IsBounded b.buf b h

  copy-IsBounded :
      (fuel size : ℕ) (b : Body) → IsBounded b → IsBounded (copy_body decode block_of fuel size b).1
  unfolding copy_body
  copy-IsBounded zero size b h = h
  copy-IsBounded (suc fuel) size b h =
      let next = read decode block_of size b in
      let last = copy_body decode block_of fuel size next.1 in
      if_split (λ (r : (Text × Bool) × Body). IsBounded r.1) next.0.1 ((next.0.0, true), next.1)
        ((next.0.0 ++ last.0.0, last.0.1), last.1) (λ _. read-IsBounded size b h)
        (λ _. copy-IsBounded fuel size next.1 (read-IsBounded size b h))

  one_if_le : (b : Bool) → one_if b ≤ 1
  one_if_le true = omega arith
  one_if_le false = omega arith

  -- Whatever a response holds and however it is read, its scan logs at most three refused numbers
  -- and at most one reproducibility block.
  pub copy_body-few :
      (fuel size : ℕ) (source : Text)
      → let log = (copy_body decode block_of fuel size (new_repro_scan_body source)).1.log in
        (findings_in log ≤ 3) × (blocks_in log ≤ 1)
  copy_body-few fuel size source =
      let fresh : IsBounded (new_repro_scan_body source) = (refl, omega arith, omega arith) in
      let (counted, few, block) = copy-IsBounded fuel size (new_repro_scan_body source) fresh in
      let b = (copy_body decode block_of fuel size (new_repro_scan_body source)).1 in
      (omega (arith, counted, few), omega (arith, block, one_if_le b.logged))
