-- ===== src/App/Iface/RoundTrip.antt =====
-- What one side dumps, the other loads.
mod Tests
use toy_tstat.Common.{
  ℕ, ◌-◌, ◌^◌, ◌<◌, ◌≤◌, ◌≡◌, ap, ◌∙◌, Bool, true, false, List, [], ◌∷◌, length, take, take-all,
  arith,
}
use toy_tstat.Common.Ints.{ℤ, pos, eq_ℤ}
use toy_tstat.Common.Chars.{Bytes}
use toy_tstat.Jems.{Jems, Level, Doubles}
use toy_tstat.Tstat.Model.{Model, system_mode_heat}
use toy_tstat.Tstat.Logic.Control.{IsMode}
use toy_tstat.Tstat.Load.{Token, max_tokens, load_json}
use toy_tstat.Tstat.Load.Fields.{IsTokenised, load_json-all}
use toy_tstat.Tstat.Dump.{WriterState, dump_json}
use toy_tstat.Tstat.Dump.Text.{IntsExact, IsStored, dump_text}
use toy_tstat.App.Iface.{cstr}
use toy_tstat.App.Iface.Text.{cstr-dump_json}

-- A model of ints in the mode OFF or COOL, dumped into a buffer that takes all of its JSON, and loaded
-- from the C string there, is the model again, whatever was in the model loaded into; double is exact on
-- ints, and the parser answers for that JSON the tokens of its object, its names and its values, each
-- with the bounds of its text.
pub load-dump :
    (d : Doubles) (l0 l1 l2 : Level) (jems : Jems WriterState)
    (jsmn_parse : Bytes → ℕ → ℤ × List Token) (m m0 : Model) (buf : Bytes) (buflen : ℕ)
    → IntsExact d
    → IsStored m
    → IsMode m.system_mode
    → eq_ℤ m.system_mode system_mode_heat ≡ false
    → length (dump_text m) < buflen
    → buflen ≤ length buf
    → buflen < 2 ^ 64
    → (jsmn_parse (dump_text m) max_tokens).0 ≡ pos 13
    → IsTokenised (dump_text m) (jsmn_parse (dump_text m) max_tokens).1 m
    → load_json jsmn_parse m0 (cstr (dump_json d (l0 ∷ l1 ∷ l2 ∷ []) jems m buf buflen)) ≡ (true, m)
load-dump d l0 l1 l2 jems jsmn_parse m m0 buf buflen exact v mode not_heat room fits small count t =
    let sent =
      cstr-dump_json d l0 l1 l2 jems m buf buflen exact v (omega arith) fits small
      ∙ take-all (buflen - 1) (dump_text m) (omega arith) in
    ap (load_json jsmn_parse m0) sent
    ∙ load_json-all jsmn_parse (dump_text m) m m0 t count mode not_heat
