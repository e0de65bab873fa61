-- ===== src/Mu/Str/Url/Tests.antt =====
-- URLs as in `test_parse_url` of mu_str.c.
use toy_tstat.Common.{◌≡◌, refl, true, false, some, arith}
use toy_tstat.Common.Chars.{Bytes, codes, digits, show_nat, read_digits}
use toy_tstat.Mu.Str.Url.{HttpParams, is_hostname, is_decimal, parse_http_params}
use toy_tstat.Mu.Str.Url.Pieces.{leading, behind, strip}
use toy_tstat.Mu.Str.Url.Port.{Tail, port, print_url, told, parse_http_params-print_url}
use toy_tstat.Mu.Str.Url.Reads.{
  read_port, read_rest, read_host, read_url, parse_http_params-read_url,
}

-- What an earlier call left.
abbrev before : HttpParams
before = record {
  host_name = codes "other.org";
  host_name_len = 9;
  host_port = 80;
  use_tls = false;
}

abbrev example_host : Bytes
example_host = codes "example.com"

abbrev with_port : Bytes
with_port = codes "https://example.com:66616/extra"

abbrev tail : Tail
tail = port 66616 (codes "/extra")

reads_example : parse_http_params before with_port ≡ some (read_url before with_port)
reads_example = parse_http_params-read_url before with_port (omega arith)

-- The port is 66616 - 65536, and the host is still that of the earlier call.
reads_with_port :
    read_url before with_port ≡ (true, record before { use_tls = true; host_port = 1080 })
unfolding read_url read_host read_rest read_port strip leading behind is_hostname is_decimal
    read_digits
reads_with_port = refl

-- A `:` with no digit behind it: NULL, with TLS and port 80 in the record.
reads_no_digit :
    read_url before (codes "http://example.com:abc") ≡ (false, record before { host_port = 80 })
unfolding read_url read_host read_rest read_port strip leading behind is_hostname is_decimal
reads_no_digit = refl

reads_minus : read_url before (codes "http://-a") ≡ (false, before)
unfolding read_url read_host strip leading is_hostname
reads_minus = refl

print_url_example :
    parse_http_params before (print_url true example_host tail)
    ≡ some (true, told before true example_host tail)
unfolding digits show_nat is_hostname is_decimal
print_url_example =
    parse_http_params-print_url before true example_host tail (ground arith) refl (omega arith)
