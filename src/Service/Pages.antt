-- ===== src/Service/Pages.antt =====
-- src/server/Service.cpp, ShowLogin, GenerateFileList and ListFiles: the two pages. A template is
-- `none` where its file cannot be opened.
pub mod Order
use asyn_log_system_cloud_st.Base.{
  Bool, true, false, Option, none, some, List, [], ◌∷◌, ◌++◌, Bytes, codes, bytes_eq, ltb, ◌==◌,
  ◌||◌, ◌&&◌, if◌then◌else◌,
}
use asyn_log_system_cloud_st.Http.Url.{url_encode}
use asyn_log_system_cloud_st.Store.Info.{StorageInfo}
use asyn_log_system_cloud_st.Store.Manager.{Table, get_all}
use asyn_log_system_cloud_st.Service.Platform.{System}
use asyn_log_system_cloud_st.Service.Text.{html_escape, replace_once}
use asyn_log_system_cloud_st.Service.Reply.{
  Headers, Reply, add_header, send_text, set_no_cache, internal_error,
}

-- `left < right` of std::string.
unfoldable pub text_less : Bytes → Bytes → Bool
text_less left [] = false
text_less [] (b ∷ right) = true
text_less (a ∷ left) (b ∷ right) = ltb a b || ((a == b) && text_less left right)

-- std::sort by file name: an entry is put in front of the first one that has a greater name.
unfoldable pub insert_by_name : System → StorageInfo → List StorageInfo → List StorageInfo
unfolding text_less
insert_by_name sys info [] = info ∷ []
insert_by_name sys info (other ∷ files) =
    let rest = insert_by_name sys info files in
    if text_less (sys.paths.filename info.storage_path) (sys.paths.filename other.storage_path)
    then info ∷ other ∷ files
    else other ∷ rest

unfoldable pub sort_by_name : System → List StorageInfo → List StorageInfo
unfolding insert_by_name
sort_by_name sys [] = []
sort_by_name sys (info ∷ files) = insert_by_name sys info (sort_by_name sys files)

-- The texts that are not ASCII, in UTF-8.
abbrev uploaded_files : Bytes
uploaded_files =
    229 ∷ 183 ∷ 178 ∷ 228 ∷ 184 ∷ 138 ∷ 228 ∷ 188 ∷ 160 ∷ 230 ∷ 150 ∷ 135 ∷ 228 ∷ 187 ∷ 182 ∷ []

abbrev page_icon : Bytes
page_icon = 240 ∷ 159 ∷ 147 ∷ 132 ∷ []

abbrev deep_storage : Bytes
deep_storage = 230 ∷ 183 ∷ 177 ∷ 229 ∷ 186 ∷ 166 ∷ 229 ∷ 173 ∷ 152 ∷ 229 ∷ 130 ∷ 168 ∷ []

abbrev low_storage : Bytes
low_storage = 230 ∷ 153 ∷ 174 ∷ 233 ∷ 128 ∷ 154 ∷ 229 ∷ 173 ∷ 152 ∷ 229 ∷ 130 ∷ 168 ∷ []

abbrev download_label : Bytes
download_label = 226 ∷ 172 ∷ 135 ∷ 239 ∷ 184 ∷ 143 ∷ 32 ∷ 228 ∷ 184 ∷ 139 ∷ 232 ∷ 189 ∷ 189 ∷ []

abbrev delete_label : Bytes
delete_label = 240 ∷ 159 ∷ 151 ∷ 145 ∷ 239 ∷ 184 ∷ 143 ∷ 32 ∷ 229 ∷ 136 ∷ 160 ∷ 233 ∷ 153 ∷ 164 ∷ []

-- A double quote.
abbrev quote : Bytes
quote = 34 ∷ []

-- The item of one file.
unfoldable pub file_item : System → StorageInfo → Bytes
unfolding html_escape
file_item sys file =
    let filename = sys.paths.filename file.storage_path in
    let encoded_url = url_encode file.url true in
    codes "<div class='file-item'><div class='file-info'><span>"
    ++ (page_icon
        ++ (html_escape filename
            ++ (codes "</span><span class='file-type'>"
                ++ ((if bytes_eq file.storage_type (codes "deep")
                      then deep_storage
                      else low_storage)
                    ++ (codes "</span><span>"
                        ++ (sys.format_size file.fsize
                            ++ (codes "</span><span>"
                                ++ (sys.format_time file.mtime
                                    ++ (codes
                                          "</span></div><div class='file-actions'><button data-url="
                                        ++ (quote
                                            ++ (html_escape encoded_url
                                                ++ (quote
                                                    ++ (codes " onclick="
                                                        ++ (quote
                                                            ++ (codes
                                                            "window.location=this.dataset.url"
                                                            ++ (quote
                                                            ++ (codes ">"
                                                            ++ (download_label
                                                            ++ (codes "</button><button data-url="
                                                            ++ (quote
                                                            ++ (html_escape encoded_url
                                                            ++ (quote
                                                            ++ (codes " onclick="
                                                            ++ (quote
                                                            ++ (codes "deleteFile(this.dataset.url)"
                                                            ++ (quote
                                                            ++ (codes " class='delete-btn'>"
                                                            ++ (delete_label
                                                            ++ codes
                                                            "</button></div></div>"))))))))))))))))))))))))))))

unfoldable pub file_items : System → List StorageInfo → Bytes
unfolding file_item
file_items sys [] = []
file_items sys (file ∷ files) = file_item sys file ++ file_items sys files

unfoldable pub generate_file_list : System → List StorageInfo → Bytes
unfolding file_items
generate_file_list sys files =
    codes "<div class='file-list'><h3>"
    ++ (uploaded_files ++ (codes "</h3>" ++ (file_items sys files ++ codes "</div>")))

-- A page that was made: evbuffer_add, the type and the reply.
unfoldable pub send_page : Headers → Bytes → Reply
unfolding add_header
send_page headers content = record {
  headers = add_header headers (codes "Content-Type") (codes "text/html;charset=utf-8");
  status = 200;
  reason = codes "OK";
  content = content;
}

unfoldable pub show_login : Option Bytes → Headers → Reply
unfolding set_no_cache send_text send_page
show_login template headers = elim template [
  | none ↦ send_text (set_no_cache headers) (internal_error (codes "login template unavailable"))
  | some content ↦ send_page (set_no_cache headers) content
]

unfoldable pub list_files : System → Option Bytes → Table → Headers → Reply
unfolding set_no_cache send_text send_page sort_by_name generate_file_list get_all replace_once
list_files sys template table headers = elim template [
  | none ↦ send_text (set_no_cache headers) (internal_error (codes "index template unavailable"))
  | some text ↦
      elim (replace_once text (codes "{{FILE_LIST}}")
        (generate_file_list sys (sort_by_name sys (get_all table)))) [
          | none ↦
              send_text (set_no_cache headers) (internal_error (codes "index template is invalid"))
          | some content ↦ send_page (set_no_cache headers) content
        ]
]
