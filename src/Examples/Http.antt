-- ===== src/Examples/Http.antt =====
-- src/server/Range.hpp and src/server/Util.hpp at concrete inputs.
use asyn_log_system_cloud_st.Base.{
  ◌≡◌, refl, true, false, Bytes, codes, find, bytes_eq, sub64, add64, arith,
}
use asyn_log_system_cloud_st.Base.Decimal.{scan, from_chars, is_digit}
use asyn_log_system_cloud_st.Http.Range.{partial, ignored, parse_unsigned, parse_range_header}
use asyn_log_system_cloud_st.Http.Range.Selects.{
  Answers, from_to, header_of, parse_range_header-Answers,
}
use asyn_log_system_cloud_st.Http.Url.{url_decode, url_encode}
use asyn_log_system_cloud_st.Http.Url.RoundTrip.{url_decode-url_encode}

abbrev ten_to_end : Bytes
ten_to_end = codes "bytes=10-19"

range_runs : parse_range_header ten_to_end 15 ≡ record { status = partial; offset = 10; length = 5 }
unfolding parse_range_header parse_unsigned from_chars scan is_digit bytes_eq find sub64 add64
range_runs = refl

range_ignored : parse_range_header (codes "bytes=1-2,4-5") 15 ≡ ignored
unfolding parse_range_header parse_unsigned from_chars scan is_digit bytes_eq find sub64 add64
range_ignored = refl

parse_range_header-Answers_example :
    Answers (from_to 10 19) 15 (parse_range_header (header_of (from_to 10 19)) 15)
parse_range_header-Answers_example =
    parse_range_header-Answers (from_to 10 19) 15 (omega arith) (omega arith)

encode_runs : url_encode (codes "a b/c") false ≡ codes "a%20b%2Fc"
unfolding url_encode
encode_runs = refl

url_decode-url_encode_example : url_decode (url_encode (codes "a b/c") true) ≡ (true, codes "a b/c")
url_decode-url_encode_example = url_decode-url_encode (codes "a b/c") true (omega arith)
