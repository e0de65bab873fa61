-- ===== src/Mu/Str/Url/Port.antt =====
-- URLs written out from their parts, and what the parser makes of them.
use toy_tstat.Common.{
  ℕ, zero, suc, ◌+◌, ◌/◌, ◌%◌, ◌^◌, ◌≡◌, ◌≢◌, ◌<◌, refl, sym, ap, ◌∙◌, inl, inr, Bool, true, false,
  some, ◌==◌, ==_ne, [], ◌∷◌, ◌++◌, All, length, Bool-cases,
}
use toy_tstat.Common.Chars.{Bytes, digits, show_nat, read_digits}
use toy_tstat.Common.Decimal.{read_digits-show_nat, digits-append, digits_head, digit_ok}
use toy_tstat.Mu.Str.{not_found}
use toy_tstat.Mu.Str.Url.{
  HttpParams, http_prefix, https_prefix, is_hostname, is_decimal, parse_http_params,
}
use toy_tstat.Mu.Str.Url.Pieces.{leading, behind, strip}
use toy_tstat.Mu.Str.Url.Reads.{
  read_port, read_rest, read_host, read_url, parse_http_params-read_url,
}

abbrev pub scheme : Bool → Bytes
scheme true = https_prefix
scheme false = http_prefix

abbrev pub default_port : Bool → ℕ
default_port true = 443
default_port false = 80

-- What may stand behind a host name: a text with no port, or a port and a text.
pub data Tail : Type 0 where
  no_port : Bytes → Tail
  port : ℕ → Bytes → Tail

abbrev pub print_tail : Tail → Bytes
print_tail (no_port rest) = rest
print_tail (port n rest) = b':' ∷ (show_nat n ++ rest)

abbrev pub print_url : Bool → Bytes → Tail → Bytes
print_url tls host tail = scheme tls ++ (host ++ print_tail tail)

-- What the caller's record holds then.
abbrev pub told : HttpParams → Bool → Bytes → Tail → HttpParams
told params tls host (no_port rest) = record params {
  use_tls = tls;
  host_port = default_port tls;
  host_name = host ++ rest;
  host_name_len = length host;
}
told params tls host (port n rest) = record params { use_tls = tls; host_port = n % 2 ^ 16 }

abbrev pub IsHost : Bytes → Type 0
IsHost [] = ⊥
IsHost (h ∷ hs) = (h ≢ b'-') × All (λ c. is_hostname c ≡ true) (h ∷ hs)

abbrev pub Ends : (ℕ → Bool) → Bytes → Type 0
Ends predicate [] = Unit
Ends predicate (c ∷ cs) = predicate c ≡ false

abbrev pub IsTail : Tail → Type 0
IsTail (no_port []) = Unit
IsTail (no_port (c ∷ rest)) = (is_hostname c ≡ false) × (c ≢ b':')
IsTail (port n rest) = Ends is_decimal rest

leading-Ends :
    (predicate : ℕ → Bool) (rest : Bytes)
    → Ends predicate rest
    → (leading predicate rest ≡ []) × (behind predicate rest ≡ rest)
unfolding leading behind
leading-Ends predicate [] h = (refl, refl)
leading-Ends predicate (c ∷ rest) h = rw h (refl, refl)

leading-append :
    (predicate : ℕ → Bool) (xs rest : Bytes)
    → All (λ c. predicate c ≡ true) xs
    → Ends predicate rest
    → (leading predicate (xs ++ rest) ≡ xs) × (behind predicate (xs ++ rest) ≡ rest)
unfolding leading behind
leading-append predicate [] rest a e = leading-Ends predicate rest e
leading-append predicate (x ∷ xs) rest (a, more) e =
    let (l, b) = leading-append predicate xs rest more e in rw a (ap (λ t. x ∷ t) l, b)

leading-digits :
    (fuel n : ℕ) (out : Bytes)
    → leading is_decimal (digits fuel n out) ≡ digits fuel n (leading is_decimal out)
unfolding leading is_decimal digits
leading-digits zero n out = rw (digit_ok n) refl
leading-digits (suc fuel) n out = elim (Bool-cases (n / 10 == 0)) [
  | inl e ↦ rw e (rw (digit_ok n) refl)
  | inr e ↦ rw e (leading-digits fuel (n / 10) ((b'0' + n % 10) ∷ out) ∙ rw (digit_ok n) refl)
]

leading-show_nat :
    (n : ℕ) (rest : Bytes)
    → Ends is_decimal rest
    → leading is_decimal (show_nat n ++ rest) ≡ show_nat n
unfolding show_nat
leading-show_nat n rest e =
    ap (leading is_decimal) (digits-append n n [] rest)
    ∙ leading-digits n n rest
    ∙ ap (digits n n) (leading-Ends is_decimal rest e).0

read_port-show_nat :
    (params : HttpParams) (n : ℕ)
    → read_port params (show_nat n) ≡ (true, record params { host_port = n % 2 ^ 16 })
unfolding read_port show_nat
read_port-show_nat params n =
    let (c, cs, begins, digit) = digits_head n n [] in
    let value : read_digits 0 (c ∷ cs) ≡ n =
      ap (read_digits 0) (sym begins) ∙ read_digits-show_nat n [] tt in
    rw (begins, value) refl

strip_scheme :
    (params : HttpParams) (tls : Bool) (rest : Bytes)
    → read_url params (scheme tls ++ rest)
      ≡ read_host
          (record params { use_tls = tls; host_port = default_port tls })
          rest
          (leading is_hostname rest)
unfolding read_url strip
strip_scheme params true rest = refl
strip_scheme params false rest = refl

read_host-named :
    (params : HttpParams) (host rest : Bytes)
    → IsHost host
    → Ends is_hostname rest
    → read_host params (host ++ rest) (leading is_hostname (host ++ rest))
      ≡ read_rest params (host ++ rest) (length host) rest
unfolding read_host
read_host-named params [] rest i e = absurd i
read_host-named params (h ∷ hs) rest (no_minus, a) e =
    let (l, b) = leading-append is_hostname (h ∷ hs) rest a e in
    rw (l, b, ==_ne h b'-' no_minus) refl

tail-Ends : (tail : Tail) → IsTail tail → Ends is_hostname (print_tail tail)
unfolding is_hostname
tail-Ends (no_port []) i = tt
tail-Ends (no_port (c ∷ rest)) (i, ne) = i
tail-Ends (port n rest) i = refl

read_rest-told :
    (params : HttpParams) (tls : Bool) (host : Bytes) (tail : Tail)
    → IsTail tail
    → read_rest
        (record params { use_tls = tls; host_port = default_port tls })
        (host ++ print_tail tail)
        (length host)
        (print_tail tail)
      ≡ (true, told params tls host tail)
unfolding read_rest
read_rest-told params tls host (no_port []) i = refl
read_rest-told params tls host (no_port (c ∷ rest)) (i, ne) = rw (==_ne c b':' ne) refl
read_rest-told params tls host (port n rest) i =
    rw (leading-show_nat n rest i) (read_port-show_nat _ n)

-- The parser takes a URL of either scheme apart that is written out from a host name and what is behind
-- it. With no port there, the record names the host, the port of the scheme and its use of TLS. With a
-- port, the record has that port, modulo 2 ^ 16, and the use of TLS, and still names the host that it
-- named before the call.
pub parse_http_params-print_url :
    (params : HttpParams) (tls : Bool) (host : Bytes) (tail : Tail)
    → IsHost host
    → IsTail tail
    → length (print_url tls host tail) < not_found
    → parse_http_params params (print_url tls host tail) ≡ some (true, told params tls host tail)
parse_http_params-print_url params tls host tail i t short =
    parse_http_params-read_url params (print_url tls host tail) short
    ∙ ap some (
        strip_scheme params tls (host ++ print_tail tail)
        ∙ read_host-named _ host (print_tail tail) i (tail-Ends tail t)
        ∙ read_rest-told params tls host tail t)
