-- ===== src/Mu/Str.antt =====
-- mulib/mulib/core/mu_str.c: strings that are a view of bytes elsewhere. Their bytes are those from
-- the pointer on; what a predicate answers for a byte comes from outside.
pub mod Compare
pub mod Trim
pub mod Find
pub mod Parse
pub mod Url
mod Tests
use toy_tstat.Common.{
  ℕ, zero, suc, ◌+◌, ◌-◌, ◌^◌, Bool, true, false, not, ◌||◌, Option, none, some, List, [], ◌∷◌, ltb,
  leb, ◌==◌, if◌then◌else◌, get_or, set, drop, length,
}
use toy_tstat.Common.Ints.{ℤ, pos, negsuc, ltb_ℤ, pos_part}
use toy_tstat.Common.Chars.{Bytes}

-- `mu_str_t`
pub record Str : Type 0 where
  pub bytes : Bytes
  pub len : ℕ

-- PTRDIFF_MAX, for MU_STR_END and MU_STR_NOT_FOUND.
abbrev pub not_found : ℕ
not_found = 2 ^ 63 - 1

pub init : Bytes → ℕ → Str
init bytes len = record { bytes = bytes; len = len }

-- A C string is the bytes before its NUL.
pub init_cstr : Bytes → Str
unfolding init
init_cstr cstr = init cstr (length cstr)

pub is_empty : Str → Bool
is_empty s = s.len == 0

pub copy : Str → Str
unfolding init
copy src = init src.bytes src.len

-- The difference of two numbers, as the `int` that comparisons answer.
abbrev pub minus : ℕ → ℕ → ℤ
minus a b = if leb b a then pos (a - b) else negsuc (b - a - 1)

-- The loop of `str_compare_aux` over `n` bytes; `last` is what it answers behind them.
pub compare_from : Bytes → Bytes → ℕ → ℤ → ℤ
compare_from b1 b2 zero last = last
compare_from b1 b2 (suc n) last =
    let rest = compare_from (drop 1 b1) (drop 1 b2) n last in
    if get_or b1 0 0 == get_or b2 0 0 then rest else minus (get_or b1 0 0) (get_or b2 0 0)

-- The difference of the lengths is taken to fit an `int`.
pub str_compare_aux : Bytes → ℕ → Bytes → ℕ → ℤ
unfolding compare_from
str_compare_aux b1 len1 b2 len2 =
    compare_from b1 b2 (if ltb len1 len2 then len1 else len2) (minus len1 len2)

pub compare : Str → Str → ℤ
unfolding str_compare_aux
compare s1 s2 = str_compare_aux s1.bytes s1.len s2.bytes s2.len

pub compare_cstr : Str → Bytes → ℤ
unfolding str_compare_aux
compare_cstr s1 cstr = str_compare_aux s1.bytes s1.len cstr (length cstr)

-- The number of bytes that the loop of `has_prefix` finds the same.
pub same_bytes : Bytes → ℕ → Bytes → ℕ → ℕ
same_bytes s1 zero s2 n2 = 0
same_bytes s1 (suc n1) s2 zero = 0
same_bytes s1 (suc n1) s2 (suc n2) =
    let rest = same_bytes (drop 1 s1) n1 (drop 1 s2) n2 in
    if get_or s1 0 0 == get_or s2 0 0 then suc rest else 0

pub prefix : Bytes → ℕ → Bytes → ℕ → Bool
unfolding same_bytes
prefix s1 s1_len s2 s2_len =
    if s2_len == 0
    then true
    else if ltb s1_len s2_len
    then false
    else same_bytes s1 s1_len s2 s2_len == s2_len

pub has_prefix : Str → Str → Bool
unfolding prefix
has_prefix s1 s2 = prefix s1.bytes s1.len s2.bytes s2.len

pub has_prefix_cstr : Str → Bytes → Bool
unfolding prefix
has_prefix_cstr s1 cstr = prefix s1.bytes s1.len cstr (length cstr)

-- An index of `mu_str_slice`: from the end if negative, and at most the length. (The bound is `>` for
-- `start` and `>=` for `end`, with the same result.)
pub slice_index : ℕ → ℤ → ℤ
slice_index len (pos n) = pos (if ltb len n || n == not_found then len else n)
slice_index len (negsuc n) = if ltb n len then pos (len - suc n) else negsuc (n - len)

-- A slice that begins before the bytes is undefined behaviour, and nothing here.
pub slice_between : Str → ℤ → ℤ → Option Str
unfolding init
slice_between src (pos start) end =
    some (init (drop start src.bytes) (if ltb_ℤ end (pos start) then 0 else pos_part end - start))
slice_between src (negsuc n) end = none

pub slice : Str → ℤ → ℤ → Option Str
unfolding slice_between
slice src start end = slice_between src (slice_index src.len start) (slice_index src.len end)

abbrev pub same : Bool → Bool → Bool
same true b = b
same false b = not b

module _ (predicate : ℕ → Bool) where
  -- The loop of `mu_str_match` from `idx` on, with `n` bytes left.
  pub match_from : Bool → Bytes → ℕ → ℕ → ℕ
  match_from break_if bytes zero idx = not_found
  match_from break_if bytes (suc n) idx =
      let rest = match_from break_if (drop 1 bytes) n (idx + 1) in
      if same (predicate (get_or bytes 0 0)) break_if then idx else rest

  pub matched : Str → Bool → ℕ
  unfolding match_from
  matched s break_if = match_from break_if s.bytes s.len 0

  -- The loop of `mu_str_rmatch` from `idx` down.
  pub rmatch_from : Bool → Bytes → ℕ → ℕ
  rmatch_from break_if bytes zero = not_found
  rmatch_from break_if bytes (suc idx) =
      let rest = rmatch_from break_if bytes idx in
      if same (predicate (get_or bytes idx 0)) break_if then idx else rest

  pub rmatched : Str → Bool → ℕ
  unfolding rmatch_from
  rmatched s break_if = rmatch_from break_if s.bytes s.len

  pub ltrim : Str → Option Str
  unfolding matched
  ltrim s =
      let idx = matched s false in
      if idx == not_found then some s else slice s (pos idx) (pos not_found)

  pub rtrim : Str → Option Str
  unfolding rmatched
  rtrim s =
      let idx = rmatched s false in if idx == not_found then some s else slice s (pos 0) (pos idx)

  pub trim : Str → Option Str
  unfolding ltrim rtrim
  trim s = elim (ltrim s) [ none ↦ none | some s' ↦ rtrim s' ]

-- The loop of `mu_str_to_cstr`, over `n` bytes from `i` on.
pub copy_bytes : Bytes → Bytes → ℕ → ℕ → Bytes
copy_bytes bytes buf i zero = buf
copy_bytes bytes buf i (suc n) = copy_bytes bytes (set buf i (get_or bytes i 0)) (i + 1) n

pub to_cstr : Str → Bytes → ℕ → Bool × Bytes
unfolding copy_bytes
to_cstr s buf capacity =
    if leb capacity s.len
    then (false, buf)
    else (true, set (copy_bytes s.bytes buf 0 s.len) s.len 0)
