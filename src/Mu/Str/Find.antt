-- ===== src/Mu/Str/Find.antt =====
-- mulib/mulib/core/mu_str.c: suffixes, and the searches for one string in another.
pub mod First
use toy_tstat.Common.{
  ℕ, zero, suc, ◌+◌, ◌-◌, ◌^◌, Bool, true, false, not, ◌||◌, Option, none, some, ltb, ◌==◌,
  if◌then◌else◌, get_or, length,
}
use toy_tstat.Common.Chars.{Bytes}
use toy_tstat.Mu.Str.{Str, not_found}

-- The number of bytes that the loop of `has_suffix` finds the same, from the ends on.
pub same_ends : Bytes → ℕ → Bytes → ℕ → ℕ
same_ends s1 zero s2 n2 = 0
same_ends s1 (suc n1) s2 zero = 0
same_ends s1 (suc n1) s2 (suc n2) =
    let rest = same_ends s1 n1 s2 n2 in if get_or s1 n1 0 == get_or s2 n2 0 then suc rest else 0

pub suffix : Bytes → ℕ → Bytes → ℕ → Bool
unfolding same_ends
suffix s1 s1_len s2 s2_len =
    if s2_len == 0
    then true
    else if ltb s1_len s2_len
    then false
    else same_ends s1 s1_len s2 s2_len == s2_len

pub has_suffix : Str → Str → Bool
unfolding suffix
has_suffix s1 s2 = suffix s1.bytes s1.len s2.bytes s2.len

pub has_suffix_cstr : Str → Bytes → Bool
unfolding suffix
has_suffix_cstr s1 cstr = suffix s1.bytes s1.len cstr (length cstr)

-- `i` and `j` are of type `int`: to go on from this value is undefined behaviour, and nothing here.
abbrev pub int_max : ℕ
int_max = 2 ^ 31 - 1

-- The comparison at one place: `n` bytes from `j` on, of the haystack from `i` on. The first byte is
-- compared as the others are.
pub matches_at : Bytes → ℕ → Bytes → ℕ → ℕ → Option Bool
matches_at haystack i needle j zero = some true
matches_at haystack i needle j (suc n) =
    let rest = matches_at haystack i needle (j + 1) n in
    if not (get_or haystack (i + j) 0 == get_or needle j 0)
    then some false
    else if j == int_max
    then none
    else rest

-- The loop of `mu_str_find_aux` from `i` on, over `n` places.
pub find_from : Bytes → Bytes → ℕ → Bool → ℕ → ℕ → Option ℕ
unfolding matches_at
find_from haystack needle needle_len skip_substr i zero = some not_found
find_from haystack needle needle_len skip_substr i (suc n) =
    let rest = find_from haystack needle needle_len skip_substr (i + 1) n in
    elim (matches_at haystack i needle 0 needle_len) [
      | none ↦ none
      | some true ↦ some (if skip_substr then i + needle_len else i)
      | some false ↦ if i == int_max then none else rest
    ]

-- With a needle longer than the haystack the bound of the loop wraps and the scan leaves the
-- haystack, which is undefined behaviour and nothing here.
pub find_aux : Bytes → ℕ → Bytes → ℕ → Bool → Option ℕ
unfolding find_from
find_aux haystack haystack_len needle needle_len skip_substr =
    if needle_len == 0
    then some 0
    else if ltb haystack_len needle_len
    then none
    else find_from haystack needle needle_len skip_substr 0 (haystack_len - needle_len + 1)

-- The loop of `mu_str_rfind_aux` over the `n` places below `n`, the last first.
pub rfind_from : Bytes → Bytes → ℕ → Bool → ℕ → Option ℕ
unfolding matches_at
rfind_from haystack needle needle_len skip_substr zero = some not_found
rfind_from haystack needle needle_len skip_substr (suc i) =
    let rest = rfind_from haystack needle needle_len skip_substr i in
    elim (matches_at haystack i needle 0 needle_len) [
      | none ↦ none
      | some true ↦ some (if skip_substr then i + needle_len else i)
      | some false ↦ rest
    ]

-- `i` begins with the difference of the lengths, as an `int`: where a needle is the longer one that is
-- negative, for lengths that fit an `int`. Other lengths are nothing here.
pub rfind_aux : Bytes → ℕ → Bytes → ℕ → Bool → Option ℕ
unfolding rfind_from
rfind_aux haystack haystack_len needle needle_len skip_substr =
    if needle_len == 0
    then some haystack_len
    else if ltb int_max haystack_len || ltb int_max needle_len
    then none
    else if ltb haystack_len needle_len
    then some not_found
    else rfind_from haystack needle needle_len skip_substr (haystack_len - needle_len + 1)

pub find : Str → Str → Bool → Option ℕ
unfolding find_aux
find haystack needle skip_substr =
    find_aux haystack.bytes haystack.len needle.bytes needle.len skip_substr

pub find_cstr : Str → Bytes → Bool → Option ℕ
unfolding find_aux
find_cstr haystack needle skip_substr =
    find_aux haystack.bytes haystack.len needle (length needle) skip_substr

pub rfind : Str → Str → Bool → Option ℕ
unfolding rfind_aux
rfind haystack needle skip_substr =
    rfind_aux haystack.bytes haystack.len needle.bytes needle.len skip_substr

pub rfind_cstr : Str → Bytes → Bool → Option ℕ
unfolding rfind_aux
rfind_cstr haystack needle skip_substr =
    rfind_aux haystack.bytes haystack.len needle (length needle) skip_substr
