-- ===== src/Service/Download.antt =====
-- src/server/Service.cpp, Download and EntityTag: the handler that sends a file. What the calls of
-- the system report is an argument.
pub mod Slices
pub mod Unpacked
use asyn_log_system_cloud_st.Base.{
  ℕ, suc, ◌^◌, ◌-◌, Bool, true, false, not, ◌||◌, ◌&&◌, Option, none, some, [], ◌∷◌, ◌++◌, Bytes,
  bytes_eq, codes, length, take, drop, ltb, if◌then◌else◌, add64, sub64,
}
use asyn_log_system_cloud_st.Base.Integers.{ℤ, pos, negsuc}
use asyn_log_system_cloud_st.Base.Decimal.{to_string}
use asyn_log_system_cloud_st.Base.Maps.{lookup, assign, erase}
use asyn_log_system_cloud_st.Auth.Session.{to_hex}
use asyn_log_system_cloud_st.Http.Range.{
  RangeStatus, ByteRange, ignore, partial, unsatisfiable, ignored, parse_range_header,
}
use asyn_log_system_cloud_st.Http.Url.{url_encode}
use asyn_log_system_cloud_st.Store.Info.{StorageInfo}
use asyn_log_system_cloud_st.Store.Manager.{Table, Files, get_one_by_url}
use asyn_log_system_cloud_st.Service.Platform.{
  Request, System, method_head, method_get, method_post, method_other, Method,
}
use asyn_log_system_cloud_st.Service.Access.{secure_equal}
use asyn_log_system_cloud_st.Service.Reply.{
  Headers, Reply, Answer, add_header, send_text, internal_error,
}
use asyn_log_system_cloud_st.Service.Reply

-- The reports of the system during one download: the temporary file, whether the packed file was
-- read and the unpacked one written, and whether the file was opened and added to the reply.
pub record DownloadEvents : Type 0 where
  pub temporary_path : Option Bytes
  pub packed_read : Bool
  pub unpacked_written : Bool
  pub opened : Bool
  pub added : Bool

unfoldable pub int_to_string : ℤ → Bytes
int_to_string (pos n) = to_string n
int_to_string (negsuc n) = b'-' ∷ to_string (suc n)

unfoldable pub sha256_hex : System → Bytes → Bytes
sha256_hex sys input = elim (sys.sha256 input) [ none ↦ [] | some digest ↦ to_hex digest ]

unfoldable pub entity_tag : System → StorageInfo → Bytes
unfolding sha256_hex int_to_string
entity_tag sys info =
    34
    ∷ (sha256_hex sys
          (info.storage_path ++ b':' ∷ (to_string info.fsize ++ b':' ∷ int_to_string info.mtime))
        ++ 34 ∷ [])

-- `std::numeric_limits<ev_off_t>::max()`.
abbrev pub off_max : ℕ
off_max = 2 ^ 63 - 1

abbrev pub is_head : Method → Bool
is_head method_head = true
is_head method_get = false
is_head method_post = false
is_head method_other = false

-- The reply with `length` bytes from `offset` on, once the headers are there.
unfoldable pub send_slice : DownloadEvents → Headers → Method → Bytes → ℕ → Bytes → ℕ → ℕ → Reply
unfolding send_text
send_slice ev headers method status_reason status file offset length_ =
    if is_head method
    then record { headers = headers; status = status; reason = status_reason; content = [] }
    else if ltb off_max offset || ltb off_max length_
    then send_text headers (internal_error (codes "file is too large for this server"))
    else if not ev.opened
    then send_text headers (Reply.not_found (codes "file not found"))
    else if not ev.added
    then send_text headers (internal_error (codes "cannot prepare file response"))
    else record {
      headers = headers;
      status = status;
      reason = status_reason;
      content = take length_ (drop offset file);
    }

-- From the parsed range on, given by its status, offset and length.
unfoldable pub send_range : DownloadEvents → Headers → Method → Bytes → RangeStatus → ℕ → ℕ → Reply
unfolding add_header send_text send_slice
send_range ev headers method file unsatisfiable offset length_ =
    send_text
      (add_header headers (codes "Content-Range") (codes "bytes */" ++ to_string (length file)))
      (record { status = 416; reason = codes "Range Not Satisfiable"; text = [] })
send_range ev headers method file partial offset length_ =
    let last = sub64 (add64 offset length_) 1 in
    send_slice ev
      (add_header (add_header headers (codes "Content-Length") (to_string length_))
        (codes "Content-Range")
        (codes "bytes "
          ++ (to_string offset ++ b'-' ∷ (to_string last ++ b'/' ∷ to_string (length file)))))
      method (codes "Partial Content") 206 file offset length_
send_range ev headers method file ignore offset length_ =
    send_slice ev (add_header headers (codes "Content-Length") (to_string (length file))) method
      (codes "OK") 200 file 0 (length file)

-- The range that is asked for: without the header, or with an If-Range that does not name this
-- version of the file, there is none.
unfoldable pub requested_range : System → Request → Bytes → ℕ → ByteRange
unfolding secure_equal
requested_range sys request etag file_size = elim (request.find_header (codes "Range")) [
  | none ↦ ignored
  | some range_header ↦ elim (request.find_header (codes "If-Range")) [
    | none ↦ parse_range_header range_header file_size
    | some if_range ↦
        if secure_equal sys if_range etag
        then parse_range_header range_header file_size
        else ignored
  ]
]

unfoldable pub file_headers : System → StorageInfo → Headers → Headers
unfolding add_header entity_tag
file_headers sys info headers =
    add_header
      (add_header
        (add_header (add_header headers (codes "Accept-Ranges") (codes "bytes")) (codes "ETag")
          (entity_tag sys info))
        (codes "Content-Type") (codes "application/octet-stream"))
      (codes "Content-Disposition")
      (codes "attachment; filename*=UTF-8''"
        ++ url_encode (sys.paths.filename info.storage_path) false)

-- From `FileSize` on; `file` is what stands under the path, `none` where stat fails.
unfoldable pub serve :
    System → DownloadEvents → Option Bytes → Headers → StorageInfo → Request → Reply
unfolding send_text send_range requested_range file_headers entity_tag
serve sys ev file headers info request = elim file [
  | none ↦ send_text headers (Reply.not_found (codes "file not found"))
  | some content ↦
      let range = requested_range sys request (entity_tag sys info) (length content) in
      send_range ev (file_headers sys info headers) request.method content range.status range.offset
        range.length
]

-- `UnCompress`: what is written to the temporary file.
unfoldable pub unpacked : System → DownloadEvents → Files → Bytes → Option Bytes
unpacked sys ev files storage_path = elim (lookup storage_path files) [
  | none ↦ none
  | some packed ↦ if not ev.packed_read then none else elim (sys.unpack packed) [
    | none ↦ none
    | some content ↦ if ev.unpacked_written then some content else none
  ]
]

-- The guard removes the temporary file on every way out.
unfoldable pub download :
    System → DownloadEvents → Table → Files → Headers → Request → Bytes → Files × Reply
unfolding get_one_by_url serve unpacked send_text
download sys ev table files headers request path = elim (get_one_by_url table path) [
  | none ↦ (files, send_text headers (Reply.not_found (codes "file not found")))
  | some info ↦
      if not (bytes_eq info.storage_type (codes "deep"))
      then (files, serve sys ev (lookup info.storage_path files) headers info request)
      else elim ev.temporary_path [
        | none ↦ (
          files,
          send_text headers (internal_error (codes "cannot create download temporary file")),
        )
        | some temporary ↦
            let created = assign temporary [] files in
            elim (unpacked sys ev created info.storage_path) [
              | none ↦ (
                erase temporary created,
                send_text headers (internal_error (codes "cannot decompress file")),
              )
              | some content ↦
                  let filled = assign temporary content created in
                  (
                    erase temporary filled,
                    serve sys ev (lookup temporary filled) headers info request,
                  )
            ]
      ]
]
