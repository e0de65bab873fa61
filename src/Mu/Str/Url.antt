-- ===== src/Mu/Str/Url.antt =====
-- mulib/mulib/core/mu_str.c: the parser of http URLs among its examples (TEST_MU_STR). A slice that
-- would begin before the bytes is nothing here, as in `slice`.
pub mod Pieces
pub mod Port
pub mod Reads
mod Tests
use toy_tstat.Common.{
  ℕ, zero, suc, ◌+◌, ◌-◌, ◌*◌, ◌%◌, ◌^◌, Bool, true, false, not, ◌&&◌, Option, none, some, leb,
  ◌==◌, if◌then◌else◌, get_or, drop, length,
}
use toy_tstat.Common.Ints.{pos}
use toy_tstat.Common.Chars.{Bytes, codes}
use toy_tstat.Mu.Str.{Str, not_found, init_cstr, has_prefix_cstr, slice, matched}

-- `host_name` is the bytes from the pointer on, as of a string.
pub record HttpParams : Type 0 where
  pub host_name : Bytes
  pub host_name_len : ℕ
  pub host_port : ℕ
  pub use_tls : Bool

abbrev pub http_prefix : Bytes
http_prefix = codes "http://"

abbrev pub https_prefix : Bytes
https_prefix = codes "https://"

pub is_hostname : ℕ → Bool
is_hostname byte =
    if leb b'a' byte && leb byte b'z'
    then true
    else if leb b'0' byte && leb byte b'9'
    then true
    else if byte == b'.'
    then true
    else if byte == b'-'
    then true
    else false

pub is_decimal : ℕ → Bool
is_decimal byte = if leb b'0' byte && leb byte b'9' then true else false

-- The loop of `parse_uint16`; the `int` that is added up is cut to 16 bits.
pub parse_uint16_from : ℕ → ℕ → Bytes → ℕ
parse_uint16_from v zero buf = v
parse_uint16_from v (suc len) buf =
    parse_uint16_from ((v * 10 + get_or buf 0 0 + 2 ^ 16 - b'0') % 2 ^ 16) len (drop 1 buf)

pub parse_uint16 : Bytes → ℕ → ℕ
unfolding parse_uint16_from
parse_uint16 buf len = parse_uint16_from 0 len buf

-- The first byte that does not satisfy the predicate, or the length.
pub first_not : (ℕ → Bool) → Str → ℕ
first_not predicate s =
    let idx = matched predicate s false in if idx == not_found then s.len else idx

-- What stands behind the `:`.
pub parse_port : HttpParams → Str → Bool × HttpParams
unfolding first_not parse_uint16
parse_port params s1 =
    let idx = first_not is_decimal s1 in
    if idx == 0
    then (false, params)
    else (true, record params { host_port = parse_uint16 s1.bytes idx })

-- What stands behind the scheme. The byte behind a string that the host name fills is its NUL.
pub parse_host : HttpParams → Str → Option (Bool × HttpParams)
unfolding first_not parse_port
parse_host params s1 =
    let idx = first_not is_hostname s1 in
    if has_prefix_cstr s1 (codes "-")
    then some (false, params)
    else if idx == 0
    then some (false, params)
    else if not (get_or s1.bytes idx 0 == b':')
    then some (true, record params { host_name = s1.bytes; host_name_len = idx })
    else elim (slice s1 (pos (idx + 1)) (pos not_found)) [
      | none ↦ none
      | some s2 ↦ some (parse_port params s2)
    ]

-- Behind a scheme of `len` bytes.
pub parse_behind : HttpParams → Str → ℕ → Option (Bool × HttpParams)
unfolding parse_host
parse_behind params s1 len = elim (slice s1 (pos len) (pos not_found)) [
  | none ↦ none
  | some s2 ↦ parse_host params s2
]

-- Whether `params` is answered and not NULL, and what it holds then.
pub parse_http_params : HttpParams → Bytes → Option (Bool × HttpParams)
unfolding parse_behind
parse_http_params params url =
    let s1 = init_cstr url in
    if has_prefix_cstr s1 http_prefix
    then parse_behind (record params { use_tls = false; host_port = 80 }) s1 (length http_prefix)
    else if has_prefix_cstr s1 https_prefix
    then parse_behind (record params { use_tls = true; host_port = 443 }) s1 (length https_prefix)
    else some (false, params)
