-- ===== src/Mu/Str/Url/Reads.antt =====
-- The parser of URLs, against one that takes a list of bytes apart and keeps no index.
use toy_tstat.Common.{
  ℕ, zero, suc, ◌+◌, ◌-◌, ◌*◌, ◌%◌, ◌^◌, ◌≡◌, ◌<◌, ◌≤◌, refl, ap, ◌∙◌, inl, inr, Bool, true, false,
  not, Option, none, some, ◌==◌, [], ◌∷◌, if◌then◌else◌, get_or, drop, length, length-drop,
  Bool-cases, Option-cases, arith,
}
use toy_tstat.Common.Ints.{pos}
use toy_tstat.Common.Chars.{Bytes, codes, read_digits, is_digit}
use toy_tstat.Mu.Str.{not_found, init, init_cstr, has_prefix_cstr, slice}
use toy_tstat.Mu.Str.Url.{
  HttpParams, http_prefix, https_prefix, is_hostname, is_decimal, parse_uint16_from, parse_uint16,
  parse_port, parse_host, parse_behind, parse_http_params,
}
use toy_tstat.Mu.Str.Url.Pieces.{
  leading, behind, strip, is_some, drop-leading, first_not-leading, has_prefix_cstr-strip,
  drop-strip, slice_behind, suc_not,
}

-- The port that these digits name.
unfoldable pub read_port : HttpParams → Bytes → Bool × HttpParams
read_port params [] = (false, params)
read_port params (d ∷ ds) = (true, record params { host_port = read_digits 0 (d ∷ ds) % 2 ^ 16 })

-- `cs` begins with a host name of `len` bytes, and `rest` is what is behind it.
unfoldable pub read_rest : HttpParams → Bytes → ℕ → Bytes → Bool × HttpParams
unfolding read_port
read_rest params cs len [] = (true, record params { host_name = cs; host_name_len = len })
read_rest params cs len (c ∷ rest) =
    if c == b':'
    then read_port params (leading is_decimal rest)
    else (true, record params { host_name = cs; host_name_len = len })

-- The host name that `cs` begins with.
unfoldable pub read_host : HttpParams → Bytes → Bytes → Bool × HttpParams
unfolding read_rest
read_host params cs [] = (false, params)
read_host params cs (h ∷ hs) =
    let rest = read_rest params cs (length (h ∷ hs)) (behind is_hostname cs) in
    if h == b'-' then (false, params) else rest

unfoldable pub read_url : HttpParams → Bytes → Bool × HttpParams
unfolding read_host
read_url params url = elim (strip http_prefix url) [
  | some cs ↦
      read_host (record params { use_tls = false; host_port = 80 }) cs (leading is_hostname cs)
  | none ↦ elim (strip https_prefix url) [
    | some cs ↦
        read_host (record params { use_tls = true; host_port = 443 }) cs (leading is_hostname cs)
    | none ↦ (false, params)
  ]
]

cut :
    (v c : ℕ) → 48 ≤ c → (v % 2 ^ 16 * 10 + c + 2 ^ 16 - 48) % 2 ^ 16 ≡ (v * 10 + (c - 48)) % 2 ^ 16
cut v c h = omega arith

parse_uint16_from-leading :
    (v : ℕ) (cs : Bytes)
    → parse_uint16_from (v % 2 ^ 16) (length (leading is_decimal cs)) cs
      ≡ read_digits v (leading is_decimal cs) % 2 ^ 16
unfolding parse_uint16_from leading is_decimal read_digits
parse_uint16_from-leading v [] = refl
parse_uint16_from-leading v (c ∷ cs) = elim (Bool-cases (is_digit c)) [
  | inl e ↦ rw e (rw (cut v c (ground arith), e) (parse_uint16_from-leading (v * 10 + (c - 48)) cs))
  | inr e ↦ rw e refl
]

port_or_none :
    (params : HttpParams) (ds : Bytes) (v : ℕ)
    → v ≡ read_digits 0 ds % 2 ^ 16
    → (if length ds == 0 then (false, params) else (true, record params { host_port = v }))
      ≡ read_port params ds
unfolding read_port
port_or_none params [] v e = refl
port_or_none params (d ∷ ds) v e = rw suc_not (ap (λ k. (true, record params { host_port = k })) e)

parse_port-read_port :
    (params : HttpParams) (cs : Bytes)
    → length cs < not_found
    → parse_port params (init_cstr cs) ≡ read_port params (leading is_decimal cs)
unfolding parse_port parse_uint16 init_cstr init
parse_port-read_port params cs h =
    rw (first_not-leading is_decimal cs h)
      (port_or_none params (leading is_decimal cs) _ (parse_uint16_from-leading 0 cs))

-- The byte at the end of the host name, and the bytes behind that.
get_or-drop : (cs : Bytes) (n : ℕ) → get_or cs n 0 ≡ get_or (drop n cs) 0 0
get_or-drop [] zero = refl
get_or-drop [] (suc n) = refl
get_or-drop (c ∷ cs) zero = refl
get_or-drop (c ∷ cs) (suc n) = get_or-drop cs n

drop_next : (cs : Bytes) (n : ℕ) → drop (suc n) cs ≡ drop 1 (drop n cs)
drop_next [] zero = refl
drop_next [] (suc n) = refl
drop_next (c ∷ cs) zero = refl
drop_next (c ∷ cs) (suc n) = drop_next cs n

drop_more : (cs : Bytes) (n : ℕ) → drop (n + 1) cs ≡ drop 1 (drop n cs)
drop_more cs n = let next : n + 1 ≡ suc n = omega arith in rw next (drop_next cs n)

starts_minus : (cs : Bytes) → has_prefix_cstr (init_cstr cs) (codes "-") ≡ (get_or cs 0 0 == 45)
unfolding strip
starts_minus [] = has_prefix_cstr-strip (codes "-") []
starts_minus (c ∷ cs) = has_prefix_cstr-strip (codes "-") (c ∷ cs) ∙ found (c == 45)
  where
    found : (b : Bool) → is_some (if b then some cs else none) ≡ b
    found true = refl
    found false = refl

behind_host :
    (params : HttpParams) (cs rest : Bytes) (len : ℕ)
    → length cs < not_found
    → drop len cs ≡ rest
    → (if not (get_or cs len 0 == b':')
        then some (true, record params { host_name = cs; host_name_len = len })
        else elim (slice (init_cstr cs) (pos (len + 1)) (pos not_found)) [
          | none ↦ none
          | some s2 ↦ some (parse_port params s2)
        ])
      ≡ some (read_rest params cs len rest)
unfolding read_rest
behind_host params cs [] len h e =
    let end : get_or cs len 0 ≡ 0 = get_or-drop cs len ∙ ap (λ r. get_or r 0 0) e in rw end refl
behind_host params cs (c ∷ rest) len h e =
    let at : get_or cs len 0 ≡ c = get_or-drop cs len ∙ ap (λ r. get_or r 0 0) e in
    let next : drop (len + 1) cs ≡ rest = drop_more cs len ∙ ap (drop 1) e in
    let long : len + 1 + length rest ≡ length cs = omega (arith, length-drop len cs, ap length e) in
    elim (Bool-cases (c == b':')) [
      | inl q ↦
          rw (at, q, slice_behind cs (len + 1) (omega arith) h, next)
            (ap some (parse_port-read_port params rest (omega arith)))
      | inr q ↦ rw (at, q) refl
    ]

parse_host-read_host :
    (params : HttpParams) (cs : Bytes)
    → length cs < not_found
    → parse_host params (init_cstr cs) ≡ some (read_host params cs (leading is_hostname cs))
unfolding parse_host init_cstr init leading read_host
parse_host-read_host params [] h = rw (starts_minus [], first_not-leading is_hostname [] h) refl
parse_host-read_host params (c ∷ cs) h = elim (Bool-cases (is_hostname c)) [
  | inl host ↦ elim (Bool-cases (c == b'-')) [
    | inl minus ↦ rw (starts_minus (c ∷ cs), minus, host, minus) refl
    | inr other ↦
        let at : drop (suc (length (leading is_hostname cs))) (c ∷ cs)
            ≡ behind is_hostname (c ∷ cs) =
          rw host at (drop-leading is_hostname (c ∷ cs)) in
        rw
          (
            starts_minus (c ∷ cs),
            first_not-leading is_hostname (c ∷ cs) h,
            host,
            other,
            suc_not (length (leading is_hostname cs)),
          )
          (behind_host params (c ∷ cs) (behind is_hostname (c ∷ cs)) _ h at)
  ]
  | inr no_host ↦
      rw (starts_minus (c ∷ cs), first_not-leading is_hostname (c ∷ cs) h, no_host)
        (either (c == b'-'))
]
  where
    answer : Option (Bool × HttpParams)
    answer = some (false, params)

    either : (b : Bool) → (if b then answer else answer) ≡ answer
    either true = refl
    either false = refl

parse_behind-read_host :
    (params : HttpParams) (ps url cs : Bytes)
    → length url < not_found
    → strip ps url ≡ some cs
    → parse_behind params (init_cstr url) (length ps)
      ≡ some (read_host params cs (leading is_hostname cs))
unfolding parse_behind
parse_behind-read_host params ps url cs h e =
    let (there, fits) = drop-strip ps url cs e in
    let short : length cs < not_found =
      omega (arith, length-drop (length ps) url, ap length there) in
    rw (slice_behind url (length ps) fits h, parse_behind, there)
      (parse_host-read_host params cs short)

-- For a URL shorter than MU_STR_NOT_FOUND, the parser never slices before the bytes, and answers (NULL or
-- not) and leaves in the caller's record what the reading of the list does: the scheme decides on TLS and
-- on port 80 or 443, whatever becomes of the rest; a host name of letters, digits, dots and dashes that
-- does not begin with a dash must follow; and a `:` behind it must be followed by a digit, and the digits
-- from there on, modulo 2 ^ 16, replace the port.
pub parse_http_params-read_url :
    (params : HttpParams) (url : Bytes)
    → length url < not_found
    → parse_http_params params url ≡ some (read_url params url)
unfolding parse_http_params read_url strip
parse_http_params-read_url params url h = elim (Option-cases (strip http_prefix url)) [
  | inr (cs, e) ↦
      let there : has_prefix_cstr (init_cstr url) http_prefix ≡ true =
        has_prefix_cstr-strip http_prefix url ∙ ap is_some e in
      rw (there, e) (parse_behind-read_host _ http_prefix url cs h e)
  | inl e ↦
      let no_http : has_prefix_cstr (init_cstr url) http_prefix ≡ false =
        has_prefix_cstr-strip http_prefix url ∙ ap is_some e in
      elim (Option-cases (strip https_prefix url)) [
        | inr (cs, e') ↦
            let there : has_prefix_cstr (init_cstr url) https_prefix ≡ true =
              has_prefix_cstr-strip https_prefix url ∙ ap is_some e' in
            rw (no_http, there, e, e') (parse_behind-read_host _ https_prefix url cs h e')
        | inl e' ↦
            let no_https : has_prefix_cstr (init_cstr url) https_prefix ≡ false =
              has_prefix_cstr-strip https_prefix url ∙ ap is_some e' in
            rw (no_http, no_https, e, e') refl
      ]
]
