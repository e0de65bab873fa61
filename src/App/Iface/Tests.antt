-- ===== src/App/Iface/Tests.antt =====
-- A node whose task waits for the response, an empty object, which is loaded. The states without a
-- declaration are 3 and 4.
use toy_tstat.Common.{refl, false, not, [], ◌∷◌, ◌||◌, if◌then◌else◌, arith}
use toy_tstat.Common.Chars.{Bytes}
use toy_tstat.Common.Ints.{pos}
use toy_tstat.Mu.Task.{get_state}
use toy_tstat.Tstat.Load.{object, load_json}
use toy_tstat.App.Example.{setting, cold, node}
use toy_tstat.App.Iface.{Setting, cstr, endgame, run}
use toy_tstat.App.Iface.Pull.{EndsGame, Ended, pull_ends}

abbrev parsed : Setting Bytes
parsed = record setting {
  jsmn_parse = λ text size. (pos 1, record { type = object; start = 0; end = 2 } ∷ []);
  endame = endgame setting;
}

parsed-EndsGame : EndsGame parsed
unfolding endgame
parsed-EndsGame n e = refl

pull_ends_example :
    let n = node 4 false false in
    let (loaded, model) = load_json parsed.jsmn_parse cold (cstr n.coms.self.buf) in
    Ended parsed (run parsed n) (if false then cold else model) (false || not loaded)
unfolding get_state
pull_ends_example =
    pull_ends parsed parsed-EndsGame (node 4 false false) (omega arith) (omega arith) refl
