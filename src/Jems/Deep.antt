-- ===== src/Jems/Deep.antt =====
-- Brackets beyond the levels that the serializer has.
use toy_tstat.Common.{
  ℕ, ◌+◌, ◌-◌, ◌^◌, ◌<◌, ◌≡◌, refl, ap, ◌∙◌, Bool, true, false, [], ◌∷◌, ltb, lt→ltb, arith,
}
use toy_tstat.Common.Ints.{sub_size}
use toy_tstat.Common.Chars.{Bytes, codes}
use toy_tstat.Jems
use toy_tstat.Jems.Feed.{item, commify-item, emit_char-item}

module _ {ℓ} {S : Type ℓ} (writer : ℕ → S → S) where
  push_level-full :
      (j : Jems.Jems S) (b : Bool)
      → j.curr_level + 1 ≡ j.max_level
      → j.max_level < 2 ^ 64
      → Jems.push_level j b ≡ j
  unfolding Jems.push_level
  push_level-full j b full small =
      let no_room : ltb j.curr_level (sub_size j.max_level 1) ≡ false = ground arith in
      rw no_room refl

  -- A bracket, and the one that closes it.
  opened :
      (j : Jems.Jems S) (b : Bool) (c : ℕ)
      → j.curr_level + 1 ≡ j.max_level
      → j.max_level < 2 ^ 64
      → Jems.push_level (Jems.emit_char writer (Jems.commify writer j) c) b ≡ item writer j (c ∷ [])
  unfolding item
  opened j b c full small =
      ap (λ k. Jems.push_level (Jems.emit_char writer k c) b) (commify-item writer j)
      ∙ ap (λ k. Jems.push_level k b) (emit_char-item writer j [] c)
      ∙ push_level-full (item writer j (c ∷ [])) b full small

  popped :
      (j : Jems.Jems S) (t : Bytes)
      → 0 < j.curr_level
      → Jems.pop_level (item writer j t)
        ≡ record (item writer j t) { curr_level = j.curr_level - 1 }
  unfolding Jems.pop_level item
  popped j t inner = let down = lt→ltb 0 j.curr_level inner in rw down refl

  -- At the last of the levels an empty array or object is written, and its closing bracket closes the
  -- level around it: what follows gets the separators of the level outside.
  pub close-open_deep :
      (j : Jems.Jems S)
      → j.curr_level + 1 ≡ j.max_level
      → 0 < j.curr_level
      → j.max_level < 2 ^ 64
      → (Jems.array_close writer (Jems.array_open writer j)
          ≡ record (item writer j (codes "[]")) { curr_level = j.curr_level - 1 })
        × (Jems.object_close writer (Jems.object_open writer j)
            ≡ record (item writer j (codes "{}")) { curr_level = j.curr_level - 1 })
  unfolding Jems.array_open Jems.array_close Jems.object_open Jems.object_close
  close-open_deep j full inner small = (
    ap (λ k. Jems.pop_level (Jems.emit_char writer k b']')) (opened j false b'[' full small)
        ∙ ap Jems.pop_level (emit_char-item writer j (b'[' ∷ []) b']')
        ∙ popped j (codes "[]") inner,
    ap (λ k. Jems.pop_level (Jems.emit_char writer k b'}')) (opened j true b'{' full small)
        ∙ ap Jems.pop_level (emit_char-item writer j (b'{' ∷ []) b'}')
        ∙ popped j (codes "{}") inner,
  )
