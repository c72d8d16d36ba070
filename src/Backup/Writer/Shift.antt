-- ===== src/Backup/Writer/Shift.antt =====
-- log_system/logs_code/backlog/ServerBackupLog.cpp, BackupFileWriter: the renames of a rotation
-- when the system calls work.
use asyn_log_system_cloud_st.Base.{
  ℕ, zero, suc, ◌≡◌, refl, ap, ◌∙◌, inl, inr, true, false, none, leb, ◌==◌, if◌then◌else◌,
  Option-cases, arith,
}
use asyn_log_system_cloud_st.Log.Sink.Rolled.{Progresses}
use asyn_log_system_cloud_st.Backup.Writer.{Files, WriteEvents, rename, shift_file, shift_files}

-- Every call works, and fwrite gets on.
pub record Works (ev : WriteEvents) : Type 0 where
  pub knows : ev.size_known ≡ true
  pub removes : (i : ℕ) → ev.removes i ≡ true
  pub finds : (i : ℕ) → ev.exists_fails i ≡ false
  pub renames : (i : ℕ) → ev.rename_fails i ≡ false
  pub opens : ev.fopened ≡ true
  pub writes : Progresses ev.fwrite
  pub ends : ev.newline_ok ≡ true
  pub flushes : ev.flush_ok ≡ true
  pub closes : ev.close_ok ≡ true

-- The files up to `n` with their numbers one higher.
abbrev pub shifted : ℕ → Files → Files
shifted n files zero = none
shifted n files (suc k) = if leb k n then files k else files (suc k)

module _ (ev : WriteEvents) (works : Works ev) where
  shift_file_ok : (i : ℕ) (files : Files) → (shift_file ev i files).1 ≡ true
  unfolding shift_file
  shift_file_ok i files = ground (arith, works.finds i, works.renames i)

  shift_file_at :
      (i : ℕ) (files : Files)
      → files (suc i) ≡ none
      → (k : ℕ)
      → (shift_file ev i files).0 k
        ≡ (if k == suc i then files i else if k == i then none else files k)
  unfolding shift_file rename
  shift_file_at i files e k = elim (Option-cases (files i)) [
    | inl n ↦ at_none n
    | inr (a, s) ↦ ground (arith, works.finds i, works.renames i, s)
  ]
    where
      at_same : (j : ℕ) → (k == j) ≡ true → files k ≡ files j
      at_same j h = let same : k ≡ j = ground arith in ap files same

      at_none :
          files i ≡ none
          → (shift_file ev i files).0 k
            ≡ (if k == suc i then files i else if k == i then none else files k)
      at_none n = ground (arith, works.finds i, n, e, at_same i, at_same (suc i))

  pub shift_files_at :
      (n : ℕ) (files : Files)
      → files (suc n) ≡ none
      → ((shift_files ev n files).1 ≡ true)
        × ((k : ℕ) → (shift_files ev n files).0 k ≡ shifted n files k)
  unfolding shift_files
  shift_files_at zero files e = (shift_file_ok 0 files, λ k. shift_file_at 0 files e k ∙ first k)
    where
      first :
          (k : ℕ)
          → (if k == 1 then files 0 else if k == 0 then none else files k) ≡ shifted 0 files k
      first zero = refl
      first (suc zero) = refl
      first (suc (suc k)) = ground arith
  shift_files_at (suc n) files e =
      let next = shift_files_at n (shift_file ev (suc n) files).0 moved in
      (found ∙ next.0, λ k. at k (next.1 k))
    where
      moved : (shift_file ev (suc n) files).0 (suc n) ≡ none
      moved = shift_file_at (suc n) files e (suc n) ∙ ground arith

      found :
          (shift_files ev (suc n) files).1 ≡ (shift_files ev n (shift_file ev (suc n) files).0).1
      found = ground (arith, shift_file_ok (suc n) files)

      found_at :
          (k : ℕ)
          → (shift_files ev (suc n) files).0 k
            ≡ (shift_files ev n (shift_file ev (suc n) files).0).0 k
      found_at k = ground (arith, shift_file_ok (suc n) files)

      same_at : (k j : ℕ) → k ≡ j → files k ≡ files j
      same_at k j e = ap files e

      before :
          (k : ℕ)
          → shifted n (shift_file ev (suc n) files).0 (suc k) ≡ shifted (suc n) files (suc k)
      before k = ground (
        arith,
        shift_file_at (suc n) files e k,
        shift_file_at (suc n) files e (suc k),
        same_at k (suc n),
      )

      at :
          (k : ℕ)
          → (shift_files ev n (shift_file ev (suc n) files).0).0 k
            ≡ shifted n (shift_file ev (suc n) files).0 k
          → (shift_files ev (suc n) files).0 k ≡ shifted (suc n) files k
      at zero e = found_at zero ∙ e
      at (suc k) e = found_at (suc k) ∙ (e ∙ before k)
