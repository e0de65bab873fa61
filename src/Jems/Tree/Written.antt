-- ===== src/Jems/Tree/Written.antt =====
-- What one value, written whole, changes in the serializer; and the serializer inside a bracket.
use toy_tstat.Common.{
  ℕ, ◌+◌, ◌^◌, ◌<◌, ◌≤◌, ◌≡◌, refl, sym, ap, ◌∙◌, Bool, true, false, [], ◌∷◌, ◌++◌, ltb, get_or,
  set, length, length-set, get_or-set_self, get_or-set_ne, append_assoc, arith, lt→ltb,
}
use mathlib.Core.Path.{subst}
use toy_tstat.Common.Chars.{Bytes}
use toy_tstat.Jems
use toy_tstat.Jems.Feed.{
  separator, bump, feed, feed-append, item, object_open-item, array_open-item,
}

module _ {ℓ} {S : Type ℓ} (writer : ℕ → S → S) where
  abbrev level_of : Jems.Jems S → ℕ → Jems.Level
  level_of j i = get_or j.levels i Jems.unset

  abbrev here : Jems.Jems S → Jems.Level
  here j = level_of j j.curr_level

  -- From `j` to `k`, one value with the text `t` was written.
  pub record Wrote (j : Jems.Jems S) (t : Bytes) (k : Jems.Jems S) : Type ℓ where
    pub written : k.arg ≡ feed writer (separator (here j) ++ t) j.arg
    pub same_level : k.curr_level ≡ j.curr_level
    pub same_max : k.max_level ≡ j.max_level
    pub same_length : length k.levels ≡ length j.levels
    pub bumped : level_of k j.curr_level ≡ bump (here j)
    pub below : (i : ℕ) → i < j.curr_level → level_of k i ≡ level_of j i

  -- From `j` to `k`, a bracket was opened and `n` items written in it; `t` is the text from the bracket on.
  pub record Inside (j : Jems.Jems S) (t : Bytes) (l : Jems.Level) (k : Jems.Jems S) : Type ℓ where
    pub written : k.arg ≡ feed writer (separator (here j) ++ t) j.arg
    pub deeper : k.curr_level ≡ j.curr_level + 1
    pub same_max : k.max_level ≡ j.max_level
    pub same_length : length k.levels ≡ length j.levels
    pub inner : here k ≡ l
    pub bumped : level_of k j.curr_level ≡ bump (here j)
    pub below : (i : ℕ) → i < j.curr_level → level_of k i ≡ level_of j i

  pub item-Wrote :
      (j : Jems.Jems S) (t : Bytes) → j.curr_level < length j.levels → Wrote j t (item writer j t)
  unfolding item
  item-Wrote j t h = record {
    written = refl;
    same_level = refl;
    same_max = refl;
    same_length = length-set j.levels j.curr_level _;
    bumped = get_or-set_self j.levels j.curr_level _ _ h;
    below = λ i p. get_or-set_ne j.levels j.curr_level i _ _ (λ e. omega (arith, e));
  }

  pub Inside-Wrote :
      (j k m : Jems.Jems S) (t u : Bytes) (l : Jems.Level)
      → Inside j t l k
      → Wrote k u m
      → Inside j (t ++ (separator l ++ u)) (bump l) m
  Inside-Wrote j k m t u l s w = record {
    written =
        w.written
        ∙ ap (λ x. feed writer (separator x ++ u) k.arg) s.inner
        ∙ ap (feed writer (separator l ++ u)) s.written
        ∙ sym (feed-append writer (separator (here j) ++ t) (separator l ++ u) j.arg)
        ∙ ap (λ x. feed writer x j.arg) (append_assoc (separator (here j)) t (separator l ++ u));
    deeper = w.same_level ∙ s.deeper;
    same_max = w.same_max ∙ s.same_max;
    same_length = w.same_length ∙ s.same_length;
    inner = ap (level_of m) w.same_level ∙ w.bumped ∙ ap bump s.inner;
    bumped = w.below j.curr_level (omega (arith, s.deeper)) ∙ s.bumped;
    below = λ i p. w.below i (omega (arith, s.deeper)) ∙ s.below i p;
  }

  open-Inside :
      (j : Jems.Jems S) (b : Bool) (c : ℕ)
      → j.curr_level + 1 < length j.levels
      → Inside j
          (c ∷ [])
          (record { item_count = 0; is_object = b })
          (let k = item writer j (c ∷ []) in
            record k {
              levels = set k.levels (j.curr_level + 1) (record { item_count = 0; is_object = b });
              curr_level = j.curr_level + 1;
            })
  unfolding item
  open-Inside j b c h =
      let n = j.curr_level in
      let w = item-Wrote j (c ∷ []) (omega arith) in
      let ls = set j.levels n (bump (here j)) in
      let same : length ls ≡ length j.levels = length-set j.levels n _ in
      record {
        written = refl;
        deeper = refl;
        same_max = refl;
        same_length = length-set ls (n + 1) _ ∙ same;
        inner = get_or-set_self ls (n + 1) _ _ (omega (arith, same));
        bumped = get_or-set_ne ls (n + 1) n _ _ (λ e. omega (arith, e)) ∙ w.bumped;
        below = λ i p. get_or-set_ne ls (n + 1) i _ _ (λ e. omega (arith, e)) ∙ w.below i p;
      }

  pub array_open-Inside :
      (j : Jems.Jems S)
      → j.curr_level + 1 < j.max_level
      → j.max_level < 2 ^ 64
      → j.max_level ≤ length j.levels
      → Inside j
          (b'[' ∷ [])
          (record { item_count = 0; is_object = false })
          (Jems.array_open writer j)
  array_open-Inside j h small fits =
      subst (Inside j (b'[' ∷ []) (record { item_count = 0; is_object = false }))
        (sym (array_open-item writer j h small)) (open-Inside j false b'[' (omega arith))

  pub object_open-Inside :
      (j : Jems.Jems S)
      → j.curr_level + 1 < j.max_level
      → j.max_level < 2 ^ 64
      → j.max_level ≤ length j.levels
      → Inside j
          (b'{' ∷ [])
          (record { item_count = 0; is_object = true })
          (Jems.object_open writer j)
  object_open-Inside j h small fits =
      subst (Inside j (b'{' ∷ []) (record { item_count = 0; is_object = true }))
        (sym (object_open-item writer j h small)) (open-Inside j true b'{' (omega arith))

  close-Wrote :
      (j k : Jems.Jems S) (t : Bytes) (l : Jems.Level) (c : ℕ)
      → Inside j t l k
      → Wrote j (t ++ c ∷ []) (Jems.pop_level (Jems.emit_char writer k c))
  unfolding Jems.pop_level Jems.emit_char
  close-Wrote j k t l c s =
      let deep : ltb 0 k.curr_level ≡ true = lt→ltb _ _ (omega (arith, s.deeper)) in
      rw deep (record {
        written = emitted;
        same_level = omega (arith, s.deeper);
        same_max = s.same_max;
        same_length = s.same_length;
        bumped = s.bumped;
        below = s.below;
      })
    where
      emitted : writer c k.arg ≡ feed writer (separator (here j) ++ (t ++ c ∷ [])) j.arg
      emitted =
          ap (writer c) s.written
          ∙ sym (feed_one (feed writer (separator (here j) ++ t) j.arg))
          ∙ sym (feed-append writer (separator (here j) ++ t) (c ∷ []) j.arg)
          ∙ ap (λ x. feed writer x j.arg) (append_assoc (separator (here j)) t (c ∷ []))
        where
          feed_one : (a : S) → feed writer (c ∷ []) a ≡ writer c a
          feed_one a = unfold feed in refl

  pub array_close-Wrote :
      (j k : Jems.Jems S) (t : Bytes) (l : Jems.Level)
      → Inside j t l k
      → Wrote j (t ++ b']' ∷ []) (Jems.array_close writer k)
  unfolding Jems.array_close
  array_close-Wrote j k t l s = close-Wrote j k t l b']' s

  pub object_close-Wrote :
      (j k : Jems.Jems S) (t : Bytes) (l : Jems.Level)
      → Inside j t l k
      → Wrote j (t ++ b'}' ∷ []) (Jems.object_close writer k)
  unfolding Jems.object_close
  object_close-Wrote j k t l s = close-Wrote j k t l b'}' s
