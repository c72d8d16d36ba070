-- ===== src/Service/Upload/Commit.antt =====
-- src/server/Service.cpp, Upload: the commit of the file.
use asyn_log_system_cloud_st.Base.{
  ◌≡◌, refl, ◌⊎◌, inl, inr, Bool, true, false, not, none, some, [], Bytes, bytes_eq, bytes_eq_iff,
  arith, Option-cases, if◌then◌else◌,
}
use asyn_log_system_cloud_st.Base.Maps.{lookup, assign, erase, lookup-assign, lookup-erase}
use asyn_log_system_cloud_st.Store.Manager.{Files}
use asyn_log_system_cloud_st.Service.Upload.{
  CommitResult, committed, file_exists, commit_failed, commit_no_replace,
}
use asyn_log_system_cloud_st.Service.Upload.Atomic.{Linked}

-- The files while the temporary file holds a content.
abbrev pub filled : Bytes → Bytes → Files → Files
filled temporary content files = assign temporary content (assign temporary [] files)

module _ (files : Files) (temporary final content : Bytes)
    (fresh : lookup temporary files ≡ none) where
  lookup-filled :
      (p : Bytes)
      → lookup p (filled temporary content files)
        ≡ (if bytes_eq temporary p then some content else lookup p files)
  lookup-filled p = ground (
    arith,
    lookup-assign temporary p content (assign temporary [] files),
    lookup-assign temporary p [] files,
  )

  removed_filled :
      (p : Bytes) → lookup p (erase temporary (filled temporary content files)) ≡ lookup p files
  removed_filled p = ground (
    arith,
    lookup-erase temporary p (filled temporary content files),
    lookup-filled p,
    bytes_eq_iff temporary p,
  )

  -- A commit links the file, or the removal of the temporary file undoes everything.
  abbrev pub Commits : Files × CommitResult → Type 0
  Commits (after, result) =
      ((result ≡ committed) × Linked final content files after)
      ⊎ (((result ≡ file_exists) ⊎ (result ≡ commit_failed))
          × ((p : Bytes) → lookup p (erase temporary after) ≡ lookup p files))

  commit_taken :
      (taken : Bytes) (linked unlinked : Bool)
      → lookup final (filled temporary content files) ≡ some taken
      → commit_no_replace (filled temporary content files) temporary final linked unlinked
        ≡ (filled temporary content files, file_exists)
  unfolding commit_no_replace
  commit_taken taken linked unlinked e = ground arith

  commit_free :
      (linked unlinked : Bool)
      → lookup final (filled temporary content files) ≡ none
      → lookup temporary (filled temporary content files) ≡ some content
      → commit_no_replace (filled temporary content files) temporary final linked unlinked ≡ (
          if not linked
          then (filled temporary content files, commit_failed)
          else if not unlinked
          then (erase final (assign final content (filled temporary content files)), commit_failed)
          else (erase temporary (assign final content (filled temporary content files)), committed))
  unfolding commit_no_replace
  commit_free linked unlinked e t = ground arith

  commit_ends :
      lookup final (filled temporary content files) ≡ none
      → (linked unlinked : Bool)
      → Commits (
          if not linked
          then (filled temporary content files, commit_failed)
          else if not unlinked
          then (erase final (assign final content (filled temporary content files)), commit_failed)
          else (erase temporary (assign final content (filled temporary content files)), committed))
  commit_ends e false unlinked = inr (inr refl, λ p. removed_filled p)
  commit_ends e true false = inr (
    inr refl,
    λ p. ground (
      arith,
      lookup-erase temporary p
          (erase final (assign final content (filled temporary content files))),
      lookup-erase final p (assign final content (filled temporary content files)),
      lookup-assign final p content (filled temporary content files),
      lookup-filled p,
      bytes_eq_iff temporary p,
      bytes_eq_iff final p,
    ),
  )
  commit_ends e true true = inl (
    refl,
    (
      ground (arith, lookup-filled final),
      λ p. ground (
        arith,
        lookup-erase temporary p (assign final content (filled temporary content files)),
        lookup-assign final p content (filled temporary content files),
        lookup-filled p,
        lookup-filled final,
        bytes_eq_iff temporary p,
        bytes_eq_iff final p,
      ),
    ),
  )

  pub commit_no_replace_lem :
      (linked unlinked : Bool)
      → Commits (commit_no_replace (filled temporary content files) temporary final linked unlinked)
  commit_no_replace_lem linked unlinked =
      elim (Option-cases (lookup final (filled temporary content files))) [
        | inr (taken, e) ↦
            rw (commit_taken taken linked unlinked e) (inr (inl refl, λ p. removed_filled p))
        | inl e ↦
            let there : lookup temporary (filled temporary content files) ≡ some content =
              ground (arith, lookup-filled temporary, bytes_eq_iff temporary temporary) in
            rw (commit_free linked unlinked e there) (commit_ends e linked unlinked)
      ]
