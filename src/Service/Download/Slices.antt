-- ===== src/Service/Download/Slices.antt =====
-- src/server/Service.cpp, Download: what is sent of a file, and that no file changes.
use asyn_log_system_cloud_st.Base.{
  ℕ, ◌+◌, ◌≤◌, ◌<◌, ◌≡◌, ◌≢◌, refl, ap, ◌∙◌, ◌⊎◌, inl, inr, true, false, none, some, [], ◌∷◌, Bytes,
  bytes_eq, bytes_eq_iff, codes, length, take, drop, length-take, length-drop, IsU64, arith,
  Option-cases, Bool-cases,
}
use asyn_log_system_cloud_st.Base.Maps.{lookup, assign, lookup-assign, lookup-erase}
use asyn_log_system_cloud_st.Http.Range.{RangeStatus, ByteRange, ignore, partial, unsatisfiable}
use asyn_log_system_cloud_st.Http.Range.Bounds.{parse_range_header-Within}
use asyn_log_system_cloud_st.Store.Info.{StorageInfo}
use asyn_log_system_cloud_st.Store.Manager.{Table, Files, get_one_by_url}
use asyn_log_system_cloud_st.Service.Platform.{Request, System, Method}
use asyn_log_system_cloud_st.Service.Reply.{Headers, Reply, send_text}
use asyn_log_system_cloud_st.Service.Download.{
  DownloadEvents, is_head, send_slice, send_range, requested_range, entity_tag, serve, unpacked,
  download,
}

take_all : (xs : Bytes) → take (length xs) xs ≡ xs
take_all [] = refl
take_all (x ∷ xs) = ap (λ ys. x ∷ ys) (take_all xs)

length_slice : (n m : ℕ) (xs : Bytes) → n + m ≤ length xs → length (take m (drop n xs)) ≡ m
length_slice n m xs h = omega (arith, length-take m (drop n xs), length-drop n xs)

-- What a reply holds of a file: with 200 all of it, with 206 the bytes of a range inside it, and no
-- content for HEAD.
pub record Sends (file : Bytes) (range : ByteRange) (method : Method) (reply : Reply) : Type 0 where
  pub whole : reply.status ≡ 200 → is_head method ≡ false → reply.content ≡ file
  pub inside : reply.status ≡ 206 → (0 < range.length) × (range.offset + range.length ≤ length file)
  pub part :
      reply.status ≡ 206
      → is_head method ≡ false
      → (reply.content ≡ take range.length (drop range.offset file))
        × (length reply.content ≡ range.length)
  pub head_only :
      (reply.status ≡ 200) ⊎ (reply.status ≡ 206) → is_head method ≡ true → reply.content ≡ []

module _ (ev : DownloadEvents) (method : Method) (file : Bytes) where
  -- A reply with a slice, or an error.
  abbrev Slice : ℕ → ℕ → ℕ → Reply → Type 0
  Slice status offset length_ reply =
      ((reply.status ≡ status)
        × (is_head method ≡ false → reply.content ≡ take length_ (drop offset file))
        × (is_head method ≡ true → reply.content ≡ []))
      ⊎ ((reply.status ≡ 500) ⊎ (reply.status ≡ 404))

  Slice-cases :
      (headers : Headers) (reason : Bytes) (status offset length_ : ℕ)
      → Slice status offset length_ (send_slice ev headers method reason status file offset length_)
  unfolding send_slice send_text
  Slice-cases headers reason status offset length_ = ground arith

  part-Sends :
      (range : ByteRange) (reply : Reply)
      → (0 < range.length) × (range.offset + range.length ≤ length file)
      → Slice 206 range.offset range.length reply
      → Sends file range method reply
  part-Sends range reply within (inl (s, b, n)) = record {
    whole = λ t. absurd (omega (arith, s, t));
    inside = λ t. within;
    part = λ t g. (b g, ap length (b g) ∙ length_slice range.offset range.length file within.1);
    head_only = λ t g. n g;
  }
  part-Sends range reply within (inr e) = record {
    whole = λ t. absurd (omega (arith, e, t));
    inside = λ t. within;
    part = λ t. absurd (omega (arith, e, t));
    head_only = λ t. absurd (omega (arith, e, t));
  }

  whole-Sends :
      (range : ByteRange) (reply : Reply)
      → Slice 200 0 (length file) reply
      → Sends file range method reply
  whole-Sends range reply (inl (s, b, n)) = record {
    whole = λ t g. b g ∙ take_all file;
    inside = λ t. absurd (omega (arith, s, t));
    part = λ t. absurd (omega (arith, s, t));
    head_only = λ t g. n g;
  }
  whole-Sends range reply (inr e) = record {
    whole = λ t. absurd (omega (arith, e, t));
    inside = λ t. absurd (omega (arith, e, t));
    part = λ t. absurd (omega (arith, e, t));
    head_only = λ t. absurd (omega (arith, e, t));
  }

  error-Sends :
      (range : ByteRange) (reply : Reply)
      → (reply.status ≢ 200) × (reply.status ≢ 206)
      → Sends file range method reply
  error-Sends range reply e = record {
    whole = λ t. absurd (e.0 t);
    inside = λ t. absurd (e.1 t);
    part = λ t. absurd (e.1 t);
    head_only = λ t. elim t [ inl x ↦ absurd (e.0 x) | inr x ↦ absurd (e.1 x) ];
  }

  send_range-Sends :
      (headers : Headers) (range : ByteRange)
      → (range.status ≡ partial → (0 < range.length) × (range.offset + range.length ≤ length file))
      → Sends file range method
          (send_range ev headers method file range.status range.offset range.length)
  unfolding send_range send_text
  send_range-Sends headers range within = go range.status refl
    where
      go :
          (x : RangeStatus)
          → range.status ≡ x
          → Sends file range method (send_range ev headers method file x range.offset range.length)
      go unsatisfiable e = error-Sends range _ ((λ s. omega (arith, s)), λ s. omega (arith, s))
      go partial e = part-Sends range _ (within e) (Slice-cases _ _ 206 range.offset range.length)
      go ignore e = whole-Sends range _ (Slice-cases _ _ 200 0 (length file))

module _ (sys : System) (ev : DownloadEvents) (request : Request) where
  requested_range_lem :
      (etag : Bytes) (size : ℕ)
      → IsU64 size
      → (requested_range sys request etag size).status ≡ partial
      → (0 < (requested_range sys request etag size).length)
        × ((requested_range sys request etag size).offset
              + (requested_range sys request etag size).length
            ≤ size)
  unfolding requested_range
  requested_range_lem etag size u = elim (Option-cases (request.find_header (codes "Range"))) [
    | inl e ↦ λ h. ground arith
    | inr (header, e) ↦ elim (Option-cases (request.find_header (codes "If-Range"))) [
      | inl i ↦ λ h. ground (arith, parse_range_header-Within header size u)
      | inr (tag, i) ↦ λ h. ground (arith, parse_range_header-Within header size u)
    ]
  ]

  -- Whatever the Range and If-Range headers say, a reply with status 200 to GET has the whole file
  -- as its content, a reply with 206 has exactly the bytes of the requested range, which is not
  -- empty and lies inside the file, and a reply with either status to HEAD has no content.
  pub serve-Sends :
      (file : Bytes) (headers : Headers) (info : StorageInfo)
      → IsU64 (length file)
      → Sends file
          (requested_range sys request (entity_tag sys info) (length file))
          request.method
          (serve sys ev (some file) headers info request)
  unfolding serve
  serve-Sends file headers info u =
      send_range-Sends ev request.method file _ _
        (requested_range_lem (entity_tag sys info) (length file) u)

  -- If the temporary file is new, a download leaves every file as it was, on every way out.
  pub download_files :
      (table : Table) (files : Files) (headers : Headers) (path : Bytes)
      → ((t : Bytes) → ev.temporary_path ≡ some t → lookup t files ≡ none)
      → (p : Bytes) → lookup p (download sys ev table files headers request path).0 ≡ lookup p files
  unfolding download
  download_files table files headers path fresh p =
      elim (Option-cases (get_one_by_url table path)) [
        | inl e ↦ ground arith
        | inr (info, e) ↦ elim (Bool-cases (bytes_eq info.storage_type (codes "deep"))) [
          | inr d ↦ ground arith
          | inl d ↦ elim (Option-cases ev.temporary_path) [
            | inl n ↦ ground arith
            | inr (t, n) ↦
                elim (Option-cases (unpacked sys ev (assign t [] files) info.storage_path)) [
                  | inl u ↦ ground (
                    arith,
                    fresh t n,
                    bytes_eq_iff t p,
                    lookup-erase t p (assign t [] files),
                    lookup-assign t p [] files,
                  )
                  | inr (content, u) ↦ ground (
                    arith,
                    fresh t n,
                    bytes_eq_iff t p,
                    lookup-erase t p (assign t content (assign t [] files)),
                    lookup-assign t p content (assign t [] files),
                    lookup-assign t p [] files,
                  )
                ]
          ]
        ]
      ]
