-- ===== src/Service/Reply.antt =====
-- src/server/Service.cpp: AddHeader, SendText and the helpers that end a request.
use asyn_log_system_cloud_st.Base.{
  ℕ, List, [], ◌∷◌, ◌++◌, Bytes, bytes_eq, codes, is_empty, if◌then◌else◌,
}

abbrev pub Headers : Type 0
Headers = List (Bytes × Bytes)

-- What evhttp_send_reply sends: the output headers, the status line and the output buffer.
pub record Reply : Type 0 where
  pub headers : Headers
  pub status : ℕ
  pub reason : Bytes
  pub content : Bytes

-- The arguments of SendText.
pub record Answer : Type 0 where
  pub status : ℕ
  pub reason : Bytes
  pub text : Bytes

-- A step of a handler that goes on with a value, or ends the request.
pub data Checked {ℓ} (A : Type ℓ) : Type ℓ where
  pass : A → Checked A
  refuse : Answer → Checked A

unfoldable pub and_then {ℓ} : {A B : Type ℓ} → Checked A → (A → Checked B) → Checked B
and_then (pass a) f = f a
and_then (refuse answer) f = refuse answer

unfoldable pub add_header : Headers → Bytes → Bytes → Headers
add_header headers name value = headers ++ (name, value) ∷ []

-- evhttp_remove_header: the first header of the name.
unfoldable pub remove_header : Bytes → Headers → Headers
remove_header name [] = []
remove_header name ((n, v) ∷ headers) =
    let rest = remove_header name headers in if bytes_eq n name then headers else (n, v) ∷ rest

unfoldable pub send_text : Headers → Answer → Reply
unfolding add_header remove_header
send_text headers answer =
    let kept = remove_header (codes "Content-Length") headers in
    record {
      headers =
          if is_empty answer.text
          then kept
          else add_header kept (codes "Content-Type") (codes "text/plain;charset=utf-8");
      status = answer.status;
      reason = answer.reason;
      content = answer.text;
    }

unfoldable pub add_security_headers : Headers → Headers
unfolding add_header
add_security_headers headers =
    add_header
      (add_header (add_header headers (codes "X-Content-Type-Options") (codes "nosniff"))
        (codes "X-Frame-Options") (codes "DENY"))
      (codes "Referrer-Policy") (codes "same-origin")

unfoldable pub set_no_cache : Headers → Headers
unfolding add_header
set_no_cache headers =
    add_header
      (add_header
        (add_header headers (codes "Cache-Control") (codes "no-cache, no-store, must-revalidate"))
        (codes "Pragma") (codes "no-cache"))
      (codes "Expires") (codes "0")

abbrev pub bad_request : Bytes → Answer
bad_request text = record { status = 400; reason = codes "Bad Request"; text = text }

abbrev pub internal_error : Bytes → Answer
internal_error text = record { status = 500; reason = codes "Internal Server Error"; text = text }

abbrev pub conflict : Answer
conflict = record {
  status = 409;
  reason = codes "Conflict";
  text = codes "a file with this name already exists";
}

abbrev pub not_found : Bytes → Answer
not_found text = record { status = 404; reason = codes "Not Found"; text = text }

unfoldable pub send_method_not_allowed : Headers → Bytes → Reply
unfolding add_header send_text
send_method_not_allowed headers allowed =
    send_text (add_header headers (codes "Allow") allowed) (record {
      status = 405;
      reason = codes "Method Not Allowed";
      text = codes "method not allowed";
    })
