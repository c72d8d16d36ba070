-- ===== src/Service/Remove/Whole.antt =====
-- src/server/Service.cpp, Delete: the handler as a whole.
use asyn_log_system_cloud_st.Base.{◌≡◌, ◌≢◌, refl, sym, ◌∙◌, ◌⊎◌, inl, inr, Bytes, arith, subst}
use asyn_log_system_cloud_st.Store.Info.{StorageInfo}
use asyn_log_system_cloud_st.Store.Manager.{DataManager}
use asyn_log_system_cloud_st.Service.Platform.{Request, System, Settings}
use asyn_log_system_cloud_st.Service.Reply.{Headers, Answer, Checked, pass, refuse, send_text}
use asyn_log_system_cloud_st.Service.Remove.{RemoveEvents, check_remove, remove_stored, remove_file}
use asyn_log_system_cloud_st.Service.Remove.Atomic.{IsRemoved, IsKept, AreApart}
use asyn_log_system_cloud_st.Service.Remove.Stored.{remove_stored_lem}

module _ (sys : System) (settings : Settings) (ev : RemoveEvents) (m : DataManager)
    (headers : Headers) (request : Request) where
  remove_refused :
      (answer : Answer)
      → check_remove settings m.table request ≡ refuse answer
      → remove_file sys settings ev m headers request ≡ (m, send_text headers answer)
  unfolding remove_file
  remove_refused answer e = ground arith

  remove_passed :
      (url : Bytes) (info : StorageInfo)
      → check_remove settings m.table request ≡ pass (url, info)
      → remove_file sys settings ev m headers request ≡ (
        (remove_stored sys settings ev m url info).0,
        send_text headers (remove_stored sys settings ev m url info).1,
      )
  unfolding remove_file
  remove_passed url info e = rw (remove_file, e) refl

  check_status : (a : Answer) → check_remove settings m.table request ≡ refuse a → a.status ≢ 200
  unfolding check_remove
  check_status a e = ground arith

  send_status : (a : Answer) → (send_text headers a).status ≡ a.status
  unfolding send_text
  send_status a = refl

  refused_passed :
      (a : Answer) (x : Bytes × StorageInfo) (c : Checked (Bytes × StorageInfo))
      → c ≡ refuse a
      → c ≡ pass x
      → ⊥
  refused_passed a x c e f = cc

  passed_inj : (x y : Bytes × StorageInfo) → pass x ≡ pass y → x ≡ y
  passed_inj x y e = cc

  -- If the temporary files are new and no stored file is the metadata file, then after an answer of
  -- 200 the URL has passed the checks, its entry is gone from the table and from the metadata file,
  -- its file is gone, and no other entry or file has changed. After any other answer the table has
  -- not changed, and neither has any file, unless the file could not be moved back: then its
  -- content is kept under the temporary name.
  pub remove_file_lem :
      ((url : Bytes) (info : StorageInfo)
        → check_remove settings m.table request ≡ pass (url, info)
        → AreApart settings ev m info.storage_path)
      → (((remove_file sys settings ev m headers request).1.status ≡ 200)
          × ((url : Bytes) × (info : StorageInfo) × (check_remove settings m.table request
                ≡ pass (url, info))
              × IsRemoved sys settings m url info.storage_path
                  (remove_file sys settings ev m headers request).0))
        ⊎ (((remove_file sys settings ev m headers request).1.status ≢ 200)
            × ((url : Bytes) (info : StorageInfo)
                → check_remove settings m.table request ≡ pass (url, info)
                → IsKept ev m info.storage_path (remove_file sys settings ev m headers request).0)
            × ((a : Answer)
                → check_remove settings m.table request ≡ refuse a
                → (remove_file sys settings ev m headers request).0 ≡ m))
  remove_file_lem apart = go (check_remove settings m.table request) refl
    where
      go :
          (c : Checked (Bytes × StorageInfo))
          → check_remove settings m.table request ≡ c
          → (((remove_file sys settings ev m headers request).1.status ≡ 200)
              × ((url : Bytes) × (info : StorageInfo) × (check_remove settings m.table request
                    ≡ pass (url, info))
                  × IsRemoved sys settings m url info.storage_path
                      (remove_file sys settings ev m headers request).0))
            ⊎ (((remove_file sys settings ev m headers request).1.status ≢ 200)
                × ((url : Bytes) (info : StorageInfo)
                    → check_remove settings m.table request ≡ pass (url, info)
                    → IsKept ev m info.storage_path
                        (remove_file sys settings ev m headers request).0)
                × ((a : Answer)
                    → check_remove settings m.table request ≡ refuse a
                    → (remove_file sys settings ev m headers request).0 ≡ m))
      go (refuse a) e = rw (remove_refused a e) (
          inr (
            λ s. check_status a e (sym (send_status a) ∙ s),
            (λ url info p. absurd (refused_passed a (url, info) _ e p)),
            λ b f. refl,
          ))
      go (pass (url, info)) e =
          rw (remove_passed url info e)
            (elim (remove_stored_lem sys settings ev m url info (apart url info e)) [
              | inl (s, r) ↦ inl (send_status _ ∙ s, (url, info, e, r))
              | inr (s, k) ↦ inr (
                λ t. s (sym (send_status _) ∙ t),
                (λ u i p.
                    subst
                      (λ x.
                        IsKept ev m x.1.storage_path (remove_stored sys settings ev m url info).0)
                      (passed_inj (url, info) (u, i) (sym e ∙ p)) k),
                λ a f. absurd (refused_passed a (url, info) _ f e),
              )
            ])
