-- ===== src/Mu/Str/Parse.antt =====
-- mulib/mulib/core/mu_str.c: the parsers of integers, which two macros define for each type. `width`
-- is the number of bits of the type. Its values are added up modulo 2 ^ width, as they are for the
-- unsigned types and, where compilers do the usual thing, for the signed ones that are narrower than
-- `int`; for the wider ones a value out of range would be undefined behaviour.
pub mod Number
use toy_tstat.Common.{
  ℕ, zero, suc, ◌+◌, ◌-◌, ◌*◌, ◌%◌, ◌^◌, Bool, ◌&&◌, ltb, leb, ◌==◌, if◌then◌else◌, get_or, drop,
}
use toy_tstat.Common.Ints.{ℤ, pos, negsuc}
use toy_tstat.Common.Chars.{Bytes}
use toy_tstat.Mu.Str.{Str}

pub is_decimal : ℕ → Bool
is_decimal byte = leb b'0' byte && leb byte b'9'

-- The loop of the parsers, with `len` bytes left, from `buf` on.
pub parse_from : ℕ → ℕ → ℕ → Bytes → ℕ
unfolding is_decimal
parse_from width v zero buf = v
parse_from width v (suc len) buf =
    let byte = get_or buf 0 0 in
    let rest = parse_from width ((v * 10 + (byte - b'0')) % 2 ^ width) len (drop 1 buf) in
    if is_decimal byte then rest else v

-- DEFINE_UINT_PARSER
pub parse_uint : ℕ → Str → ℕ
unfolding parse_from
parse_uint width s = parse_from width 0 s.len s.bytes

-- The value of a signed type with these bits.
pub to_signed : ℕ → ℕ → ℤ
to_signed width v = if ltb v (2 ^ (width - 1)) then pos v else negsuc (2 ^ width - v - 1)

-- DEFINE_INT_PARSER
pub parse_int : ℕ → Str → ℤ
unfolding parse_from to_signed
parse_int width s =
    let minus = parse_from width 0 (s.len - 1) (drop 1 s.bytes) in
    let plus = parse_from width 0 s.len s.bytes in
    if leb 1 s.len && get_or s.bytes 0 0 == b'-'
    then to_signed width ((2 ^ width - minus) % 2 ^ width)
    else to_signed width plus
