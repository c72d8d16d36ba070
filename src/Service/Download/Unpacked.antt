-- ===== src/Service/Download/Unpacked.antt =====
-- src/server/Util.hpp, FileUtil::UnCompress, as the download sees it: one report for the read and
-- one for the write.
use asyn_log_system_cloud_st.Base.{
  ◌≡◌, ◌↔◌, sym, ap, ◌∙◌, true, Bool, Option, some, Bytes, is_some, Option-cases, inl, inr, arith,
}
use asyn_log_system_cloud_st.Base.Maps.{lookup}
use asyn_log_system_cloud_st.Service.Platform.{System}
use asyn_log_system_cloud_st.Store.Manager.{Files}
use asyn_log_system_cloud_st.Service.Download.{DownloadEvents, unpacked}
use asyn_log_system_cloud_st.Store.FileUtil.{
  ReadCalls, WriteCalls, get_content, set_content, un_compress,
}
use asyn_log_system_cloud_st.Store.FileUtil.Slices.{get_content-some, set_content-true}

module _ (sys : System) (ev : DownloadEvents) (files : Files) (path : Bytes) (reads : ReadCalls)
    (writes : WriteCalls) (output : Option Bytes) where
  abbrev pub result : Option Bytes × Bool
  result = un_compress sys.unpack reads writes (lookup path files) output

  -- What the download learns of the calls.
  abbrev pub reported : DownloadEvents
  reported = record ev {
    packed_read = is_some (get_content reads (lookup path files));
    unpacked_written = result.1;
  }

  -- The ways through UnCompress.
  un_compress_some :
      (packed content : Bytes)
      → get_content reads (lookup path files) ≡ some packed
      → sys.unpack packed ≡ some content
      → result ≡ set_content writes output content
  unfolding un_compress
  un_compress_some packed content g u = ground arith

  un_compress_true :
      (content : Bytes)
      → result ≡ (some content, true)
      → (packed : Bytes) × (c : Bytes) × (get_content reads (lookup path files) ≡ some packed)
        × (sys.unpack packed ≡ some c)
  unfolding un_compress
  un_compress_true content e = elim (Option-cases (get_content reads (lookup path files))) [
    | inl n ↦ absurd (ground (arith, e, n))
    | inr (packed, g) ↦ elim (Option-cases (sys.unpack packed)) [
      | inl n ↦ absurd (ground (arith, e, n, g))
      | inr (c, u) ↦ (packed, c, g, u)
    ]
  ]

  unpacked-some :
      (content : Bytes)
      → unpacked sys reported files path ≡ some content
      → (packed : Bytes) × (lookup path files ≡ some packed)
        × (is_some (get_content reads (lookup path files)) ≡ true)
        × (sys.unpack packed ≡ some content)
        × (result.1 ≡ true)
  unfolding unpacked
  unpacked-some content e = elim (Option-cases (lookup path files)) [
    | inl n ↦ absurd (ground (arith, e, n))
    | inr (packed, l) ↦ elim (Option-cases (sys.unpack packed)) [
      | inl n ↦ absurd (ground (arith, e, n, l))
      | inr (c, u) ↦
          (packed, l, ground (arith, e, l, u), ground (arith, e, l, u), ground (arith, e, l, u))
    ]
  ]

  unpacked_lem :
      (packed content : Bytes)
      → lookup path files ≡ some packed
      → get_content reads (lookup path files) ≡ some packed
      → sys.unpack packed ≡ some content
      → result.1 ≡ true
      → unpacked sys reported files path ≡ some content
  unfolding unpacked
  unpacked_lem packed content l g u ok = ground (arith, l, g, u, ok)

  -- The download's view of UnCompress is right: with the report that the calls of the read and the
  -- write make, it has an unpacked content exactly when UnCompress succeeds, and the content is
  -- then what UnCompress leaves in the output file.
  pub unpacked-un_compress :
      (content : Bytes)
      → (unpacked sys reported files path ≡ some content) ↔ (result ≡ (some content, true))
  unpacked-un_compress content = (
    λ e.
        let (packed, l, g, u, ok) = unpacked-some content e in
        let read = read_lem packed l g in finished packed content read u ok,
    λ e.
        let (packed, c, g, u) = un_compress_true content e in
        let l = get_content-some reads (lookup path files) packed g in
        let full = finished packed c g u (ap (λ x. x.1) e) in
        let same : c ≡ content = cc in
        unpacked_lem packed content l g (u ∙ ap some same) (ap (λ x. x.1) e),
  )
    where
      read_lem :
          (packed : Bytes)
          → lookup path files ≡ some packed
          → is_some (get_content reads (lookup path files)) ≡ true
          → get_content reads (lookup path files) ≡ some packed
      read_lem packed l g = elim (Option-cases (get_content reads (lookup path files))) [
        | inl n ↦ absurd (ground (arith, g, n))
        | inr (p, e) ↦
            let same : p ≡ packed =
              ground (arith, get_content-some reads (lookup path files) p e, l) in
            e ∙ ap some same
      ]

      pair : (r : Option Bytes × Bool) {o : Option Bytes} → r.0 ≡ o → r.1 ≡ true → r ≡ (o, true)
      pair (a, b) e f = cc

      finished :
          (packed c : Bytes)
          → get_content reads (lookup path files) ≡ some packed
          → sys.unpack packed ≡ some c
          → result.1 ≡ true
          → result ≡ (some c, true)
      finished packed c g u ok =
          let written = un_compress_some packed c g u in
          let whole = set_content-true writes output c (sym (ap (λ x. x.1) written) ∙ ok) in
          pair result (ap (λ x. x.0) written ∙ whole) ok
