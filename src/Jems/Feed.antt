-- ===== src/Jems/Feed.antt =====
-- What the operations of jems.c hand to the writer: each scalar goes out as one text, behind the
-- separator that its place asks for.
use toy_tstat.Common.{
  ℕ, ◌+◌, ◌%◌, ◌^◌, ◌<◌, ◌≡◌, refl, sym, ap, ◌∙◌, inl, inr, Bool, true, false, ◌||◌, [], ◌∷◌, ◌++◌,
  ltb, leb, ◌==◌, if◌then◌else◌, get_or, set, take, append_assoc, arith, Bool-cases, lt→ltb,
}
use toy_tstat.Common.Ints.{ℤ, add_size, sub_size}
use toy_tstat.Common.Chars.{Bytes, codes, show_int}
use toy_tstat.Jems

-- The text of one byte inside quotes.
unfoldable pub escape_byte : ℕ → Bytes
escape_byte b =
    if ltb b 0x20 || leb 127 b
    then Jems.unicode_escape b
    else if b == b'\\' || b == b'"'
    then b'\\' ∷ b ∷ []
    else b ∷ []

unfoldable pub escape : Bytes → Bytes
escape [] = []
escape (b ∷ s) = escape_byte b ++ escape s

unfoldable pub quote : Bytes → Bytes
quote s = b'"' ∷ (escape s ++ b'"' ∷ [])

-- In an object, names and values alternate: `:` goes before a value, `,` before another name.
unfoldable pub separator : Jems.Level → Bytes
separator l =
    if ltb 0 l.item_count
    then if l.is_object then (if l.item_count % 2 == 1 then b':' ∷ [] else b',' ∷ []) else b',' ∷ []
    else []

unfoldable pub bump : Jems.Level → Jems.Level
bump l = record l { item_count = add_size l.item_count 1 }

module _ {ℓ} {S : Type ℓ} (writer : ℕ → S → S) where
  unfoldable pub feed : Bytes → S → S
  feed [] s = s
  feed (c ∷ cs) s = feed cs (writer c s)

  pub feed-append : (xs ys : Bytes) (s : S) → feed (xs ++ ys) s ≡ feed ys (feed xs s)
  unfolding feed
  feed-append [] ys s = refl
  feed-append (c ∷ xs) ys s = feed-append xs ys (writer c s)

  -- One item, written whole.
  unfoldable pub item : Jems.Jems S → Bytes → Jems.Jems S
  item j text =
      let l = get_or j.levels j.curr_level Jems.unset in
      record j {
        levels = set j.levels j.curr_level (bump l);
        arg = feed (separator l ++ text) j.arg;
      }

  emit_string-feed :
      (j : Jems.Jems S) (s : Bytes) → Jems.emit_string writer j s ≡ record j { arg = feed s j.arg }
  unfolding Jems.emit_string feed
  emit_string-feed j [] = refl
  emit_string-feed j (c ∷ s) = emit_string-feed (record j { arg = writer c j.arg }) s

  emit_quoted_byte-feed :
      (j : Jems.Jems S) (b : ℕ)
      → Jems.emit_quoted_byte writer j b ≡ record j { arg = feed (escape_byte b) j.arg }
  unfolding Jems.emit_quoted_byte escape_byte feed
  emit_quoted_byte-feed j b = elim (Bool-cases (ltb b 0x20 || leb 127 b)) [
    | inl e ↦ rw e (emit_string-feed j (Jems.unicode_escape b))
    | inr e ↦ rw e (elim (Bool-cases (b == b'\\' || b == b'"')) [
      | inl special ↦ rw special
      | inr plain ↦ rw plain
    ])
  ]

  emit_quoted_string-feed :
      (j : Jems.Jems S) (s : Bytes)
      → Jems.emit_quoted_string writer j s ≡ record j { arg = feed (escape s) j.arg }
  unfolding Jems.emit_quoted_string escape escape_byte
  emit_quoted_string-feed j [] = unfold feed in refl
  emit_quoted_string-feed j (c ∷ s) = rw (emit_quoted_byte-feed j c) (
      emit_quoted_string-feed (record j { arg = feed (escape_byte c) j.arg }) s
      ∙ ap (λ a. record j { arg = a }) (sym (feed-append (escape_byte c) (escape s) j.arg)))

  pub commify-item : (j : Jems.Jems S) → Jems.commify writer j ≡ item j []
  unfolding Jems.commify item separator bump feed
  commify-item j =
      let l = get_or j.levels j.curr_level Jems.unset in
      elim (Bool-cases (ltb 0 l.item_count)) [
        | inl more ↦ elim (Bool-cases l.is_object) [
          | inl fields ↦ elim (Bool-cases (l.item_count % 2 == 1)) [
            | inl value ↦ rw (more, fields, value)
            | inr name ↦ rw (more, fields, name)
          ]
          | inr entries ↦ rw (more, entries)
        ]
        | inr first ↦ elim (Bool-cases l.is_object) [
          | inl fields ↦ rw (first, fields)
          | inr entries ↦ rw (first, entries)
        ]
      ]

  -- What is emitted after an item belongs to its text.
  item-append :
      (j : Jems.Jems S) (t u : Bytes)
      → (let k = item j t in record k { arg = feed u k.arg }) ≡ item j (t ++ u)
  unfolding item
  item-append j t u =
      ap (λ a. record j { levels = set j.levels j.curr_level (bump l); arg = a }) texts
    where
      l : Jems.Level
      l = get_or j.levels j.curr_level Jems.unset

      texts : feed u (feed (separator l ++ t) j.arg) ≡ feed (separator l ++ (t ++ u)) j.arg
      texts =
          sym (feed-append (separator l ++ t) u j.arg)
          ∙ ap (λ x. feed x j.arg) (append_assoc (separator l) t u)

  -- Text behind a `commify` is one item.
  emit_string-commify :
      (j : Jems.Jems S) (t : Bytes) → Jems.emit_string writer (Jems.commify writer j) t ≡ item j t
  emit_string-commify j t =
      rw (commify-item j) (emit_string-feed (item j []) t ∙ item-append j [] t)

  pub emit_char-item :
      (j : Jems.Jems S) (t : Bytes) (c : ℕ)
      → Jems.emit_char writer (item j t) c ≡ item j (t ++ c ∷ [])
  unfolding Jems.emit_char
  emit_char-item j t c = unfold feed in item-append j t (c ∷ [])

  pub string-item : (j : Jems.Jems S) (s : Bytes) → Jems.string writer j s ≡ item j (quote s)
  unfolding Jems.string quote
  string-item j s =
      ap
        (λ k.
          Jems.emit_char writer (Jems.emit_quoted_string writer (Jems.emit_char writer k b'"') s)
            b'"')
        (commify-item j)
      ∙ ap (λ k. Jems.emit_char writer (Jems.emit_quoted_string writer k s) b'"')
          (emit_char-item j [] b'"')
      ∙ ap (λ k. Jems.emit_char writer k b'"')
          (emit_quoted_string-feed (item j (b'"' ∷ [])) s ∙ item-append j (b'"' ∷ []) (escape s))
      ∙ emit_char-item j (b'"' ∷ escape s) b'"'

  pub boolean-item :
      (j : Jems.Jems S) (b : Bool)
      → Jems.boolean writer j b ≡ item j (if b then codes "true" else codes "false")
  unfolding Jems.boolean
  boolean-item j b = emit_string-commify j _

  pub integer-item :
      (j : Jems.Jems S) (z : ℤ) → Jems.integer writer j z ≡ item j (take 21 (show_int z))
  unfolding Jems.integer
  integer-item j z = emit_string-commify j _

  pub null-item : (j : Jems.Jems S) → Jems.null writer j ≡ item j (codes "null")
  unfolding Jems.null
  null-item j = emit_string-commify j _

  pub number-item :
      (d : Jems.Doubles) (j : Jems.Jems S) (z : ℤ)
      → d.to_int64 (d.of_int z) ≡ z
      → d.equal (d.of_int z) (d.of_int z) ≡ true
      → Jems.number writer d j (d.of_int z) ≡ item j (take 21 (show_int z))
  unfolding Jems.number
  number-item d j z back same = rw (back, same) (emit_string-commify j (take 21 (show_int z)))

  pub push_level-room :
      (j : Jems.Jems S) (b : Bool)
      → j.curr_level + 1 < j.max_level
      → j.max_level < 2 ^ 64
      → Jems.push_level j b ≡ record j {
        levels = set j.levels (j.curr_level + 1) (record { item_count = 0; is_object = b });
        curr_level = j.curr_level + 1;
      }
  unfolding Jems.push_level Jems.set_level
  push_level-room j b h small =
      let deeper : ltb j.curr_level (sub_size j.max_level 1) ≡ true = lt→ltb _ _ (omega arith) in
      let plain : add_size j.curr_level 1 ≡ j.curr_level + 1 = omega arith in rw (deeper, plain)

  -- An opening bracket, where there is room for another level.
  pub object_open-item :
      (j : Jems.Jems S)
      → j.curr_level + 1 < j.max_level
      → j.max_level < 2 ^ 64
      → Jems.object_open writer j ≡ (
          let k = item j (b'{' ∷ []) in
          record k {
            levels = set k.levels (j.curr_level + 1) (record { item_count = 0; is_object = true });
            curr_level = j.curr_level + 1;
          })
  unfolding Jems.object_open
  object_open-item j h small =
      ap (λ k. Jems.push_level (Jems.emit_char writer k b'{') true) (commify-item j)
      ∙ ap (λ k. Jems.push_level k true) (emit_char-item j [] b'{')
      ∙ unfold item in push_level-room (item j (b'{' ∷ [])) true h small

  pub array_open-item :
      (j : Jems.Jems S)
      → j.curr_level + 1 < j.max_level
      → j.max_level < 2 ^ 64
      → Jems.array_open writer j ≡ (
          let k = item j (b'[' ∷ []) in
          record k {
            levels = set k.levels (j.curr_level + 1) (record { item_count = 0; is_object = false });
            curr_level = j.curr_level + 1;
          })
  unfolding Jems.array_open
  array_open-item j h small =
      ap (λ k. Jems.push_level (Jems.emit_char writer k b'[') false) (commify-item j)
      ∙ ap (λ k. Jems.push_level k false) (emit_char-item j [] b'[')
      ∙ unfold item in push_level-room (item j (b'[' ∷ [])) false h small

  pub key_number-item :
      (d : Jems.Doubles) (j : Jems.Jems S) (key : Bytes) (z : ℤ)
      → d.to_int64 (d.of_int z) ≡ z
      → d.equal (d.of_int z) (d.of_int z) ≡ true
      → Jems.key_number writer d j key (d.of_int z)
        ≡ item (item j (quote key)) (take 21 (show_int z))
  unfolding Jems.key_number
  key_number-item d j key z back same =
      number-item d (Jems.string writer j key) z back same
      ∙ ap (λ k. item k (take 21 (show_int z))) (string-item j key)

  pub key_bool-item :
      (j : Jems.Jems S) (key : Bytes) (b : Bool)
      → Jems.key_bool writer j key b
        ≡ item (item j (quote key)) (if b then codes "true" else codes "false")
  unfolding Jems.key_bool
  key_bool-item j key b =
      boolean-item (Jems.string writer j key) b
      ∙ ap (λ k. item k (if b then codes "true" else codes "false")) (string-item j key)

  -- `jems_key_string` writes two items, the key and the string, each quoted with its special bytes
  -- escaped and behind the separator that its place asks for.
  pub key_string-item :
      (j : Jems.Jems S) (key s : Bytes)
      → Jems.key_string writer j key s ≡ item (item j (quote key)) (quote s)
  unfolding Jems.key_string
  key_string-item j key s =
      string-item (Jems.string writer j key) s ∙ ap (λ k. item k (quote s)) (string-item j key)
