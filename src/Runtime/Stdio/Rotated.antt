-- ===== src/Runtime/Stdio/Rotated.antt =====
-- Rotation: what each file holds afterwards, and how long the active one gets.
use ingot_engine.Base.{
  ℕ, zero, suc, ◌≡◌, ◌∙◌, refl, ap, ◌+◌, ◌-◌, ◌≤◌, ◌<◌, true, false, ◌&&◌, none, some, List, [],
  ◌++◌, ◌==◌, ltb, leb, if◌then◌else◌, length, length-append, arith, Bool-cases, Option-cases, inl,
  inr, ◌⊎◌,
}
use ingot_engine.Runtime.Stdio.{
  LogRotation, LogFile, Files, rename, shift_down, shifted, remove_file, or_created, rotate_locked,
  exceeds, append_log, u64_max, at_least,
}

-- What stands under `j` once the files from `i` down to 1 were moved up by one.
abbrev pub after_shift : ℕ → Files → Files
after_shift i files j =
    if leb 2 j && leb j (i + 1) then files (j - 1) else if j == 1 && leb 1 i then none else files j

rename-moved :
    (i k : ℕ) (files : Files) (j : ℕ)
    → files k ≡ none
    → (i == k) ≡ false
    → rename i k files j ≡ (if k == j then files i else if i == j then none else files j)
unfolding rename
rename-moved i k files j free ne = elim (Option-cases (files i)) [
  | inl e ↦ rw e (ground (arith, ap files))
  | inr (content, e) ↦ rw e refl
]

shift_down-after_shift :
    (i : ℕ) (files : Files)
    → files (suc i) ≡ none
    → (j : ℕ) → shift_down i files j ≡ after_shift i files j
unfolding shift_down
shift_down-after_shift zero files free j = ground arith
shift_down-after_shift (suc i) files free j =
    let next = rename (suc i) (suc (suc i)) files in
    let at = λ (m : ℕ). rename-moved (suc i) (suc (suc i)) files m free (ground arith) in
    shift_down-after_shift i next (at (suc i) ∙ ground arith) j
    ∙ elim (Bool-cases (suc (suc i) == j)) [
      | inl e ↦
          let here : j ≡ suc (suc i) = ground arith in
          let before : j - 1 ≡ suc i = omega arith in
          let low : leb 2 j ≡ true = ground arith in
          let high : leb j (i + 1) ≡ false = ground arith in
          let most : leb j (suc i + 1) ≡ true = ground arith in
          let first : (j == 1) ≡ false = ground arith in
          rw (low, high, most, first) (at j ∙ rw (e, before) refl)
      | inr e ↦ elim (Bool-cases (suc i == j)) [
        | inl f ↦ ground (arith, at j, at (j - 1))
        | inr f ↦ ground (arith, at j, at (j - 1))
      ]
    ]

-- The active log is new and empty, every other file is one place further, the oldest of `keep` is gone, and
-- nothing stands above.
pub record Shifted (keep : ℕ) (before after : Files) : Type 0 where
  pub active : after 1 ≡ some []
  pub moved_up : (i : ℕ) → 1 ≤ i → i < keep → after (i + 1) ≡ before i
  pub above : (i : ℕ) → keep < i → after i ≡ before i

-- Under a policy of two files or more, rotation leaves an active log that is new and empty and every other file
-- up to the oldest but one a place further; the oldest is gone and what stands above the limit is unchanged.
pub rotate_locked-Shifted :
    (log : LogFile) (rot : LogRotation)
    → 2 ≤ rot.max_files
    → Shifted rot.max_files log.files (rotate_locked log (some rot)).files
unfolding rotate_locked shifted
rotate_locked-Shifted log rot many =
    let keep = rot.max_files in
    let whole : at_least keep ≡ keep = ground arith in
    let some_kept : ltb 1 keep ≡ true = ground arith in
    let removed = remove_file keep log.files in
    let one : suc (keep - 1) ≡ keep = omega arith in
    let free : removed (suc (keep - 1)) ≡ none = rw one (ground arith) in
    let at = shift_down-after_shift (keep - 1) removed free in
    record {
      active = rw (whole, some_kept, at 1) (ground arith);
      moved_up = λ i lo hi.
          let back : i + 1 - 1 ≡ i = omega arith in
          rw (whole, some_kept, at (i + 1), back) (ground arith);
      above = λ i hi. rw (whole, some_kept, at i) (ground arith);
    }

-- `written` is the length of the active file.
abbrev pub active : LogFile → List ℕ
active log = or_created (log.files 1)

abbrev pub IsCounted : LogFile → Type 0
IsCounted log = length (active log) ≡ log.written

rotated-active :
    (log : LogFile) (rot : LogRotation)
    → 2 ≤ rot.max_files
    → active (rotate_locked log (some rot)) ≡ []
rotated-active log rot many = let e = (rotate_locked-Shifted log rot many).active in rw e refl

rotated-written : (log : LogFile) (rot : LogRotation) → (rotate_locked log (some rot)).written ≡ 0
unfolding rotate_locked
rotated-written log rot = refl

-- The log under a policy.
abbrev pub under : LogRotation → LogFile → LogFile
under rot log = record log { rotation = some rot }

module _ (log : LogFile) (rot : LogRotation) (buf : List ℕ) where
  -- With a limit and two files or more, `append_log` leaves an active file that is within the limit, or
  -- is the new line alone, and `written` stays its length.
  pub append_log-Bounded :
      2 ≤ rot.max_files
      → rot.max_bytes < u64_max
      → length buf ≤ u64_max
      → IsCounted log
      → IsCounted (append_log buf (under rot log))
        × ((length (active (append_log buf (under rot log))) ≤ rot.max_bytes)
            ⊎ (active (append_log buf (under rot log)) ≡ buf))
  unfolding append_log
  append_log-Bounded many limit small counted =
      elim (Bool-cases (exceeds log.written buf (some rot))) [
        | inl over ↦
            rw (over, rotated-active (under rot log) rot many, rotated-written (under rot log) rot)
              (ground arith, inr refl)
        | inr fits ↦ rw fits (
          ground (arith, length-append (active log) buf),
          inl (ground (arith, length-append (active log) buf)),
        )
      ]

  -- With a policy of one file, `append_log` only ever appends to it, however long it gets.
  pub append_log-one_file :
      rot.max_files ≡ 1 → active (append_log buf (under rot log)) ≡ active log ++ buf
  unfolding append_log rotate_locked shifted
  append_log-one_file one = elim (Bool-cases (exceeds log.written buf (some rot))) [
    | inl over ↦ rw (over, one) refl
    | inr fits ↦ rw fits refl
  ]
