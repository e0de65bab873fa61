-- ===== src/Jems.antt =====
-- jems.c: a JSON serializer that hands its output to a writer, character by character.
pub mod Deep
pub mod Feed
pub mod Tree
mod Tests
use toy_tstat.Common.{
  ℕ, zero, suc, ◌+◌, ◌-◌, ◌/◌, ◌%◌, Bool, true, false, ◌||◌, List, [], ◌∷◌, ltb, leb, ◌==◌,
  if◌then◌else◌, get_or, set, take,
}
use toy_tstat.Common.Ints.{ℤ, add_size, sub_size}
use toy_tstat.Common.Chars.{Bytes, codes, show_int}

-- `jems_level_t`
pub record Level : Type 0 where
  pub item_count : ℕ
  pub is_object : Bool

abbrev pub unset : Level
unset = record { item_count = 0; is_object = false }

-- `jems_t`. `arg` is what the writer's argument points at, for the writer to change.
pub record Jems {ℓ} (S : Type ℓ) : Type ℓ where
  pub levels : List Level
  pub max_level : ℕ
  pub curr_level : ℕ
  pub arg : S

-- The `double`s that are serialized: C's conversions, comparison and `%lf`.
pub record Doubles : Type 1 where
  pub Double : Type 0
  pub of_int : ℤ → Double
  pub to_int64 : Double → ℤ
  pub equal : Double → Double → Bool
  pub show_lf : Double → Bytes

-- The hexadecimal digit of a number below 16.
pub hex_digit : ℕ → ℕ
hex_digit n = if ltb n 10 then b'0' + n else b'a' + (n - 10)

-- `sprintf(buf, "\\u%04x", byte)`
pub unicode_escape : ℕ → Bytes
unfolding hex_digit
unicode_escape byte =
    b'\\' ∷ b'u' ∷ b'0' ∷ b'0' ∷ hex_digit (byte / 16 % 16) ∷ hex_digit (byte % 16) ∷ []

module _ {ℓ} {S : Type ℓ} where
  -- A level beyond the array would be undefined behaviour; `max_level` keeps off it.
  unfoldable pub level_ref : Jems S → Level
  level_ref j = get_or j.levels j.curr_level unset

  unfoldable pub set_level : Jems S → Level → Jems S
  set_level j l = record j { levels = set j.levels j.curr_level l }

  unfoldable pub reset : Jems S → Jems S
  unfolding set_level
  reset j = let j0 = record j { curr_level = 0 } in set_level j0 unset

  unfoldable pub init : Jems S → List Level → ℕ → S → Jems S
  unfolding reset
  init j levels max_level arg =
      reset (record j { levels = levels; max_level = max_level; arg = arg })

  unfoldable pub push_level : Jems S → Bool → Jems S
  unfolding set_level
  push_level j is_object =
      let deeper = record j { curr_level = add_size j.curr_level 1 } in
      if ltb j.curr_level (sub_size j.max_level 1)
      then set_level deeper (record { item_count = 0; is_object = is_object })
      else j

  unfoldable pub pop_level : Jems S → Jems S
  pop_level j = if ltb 0 j.curr_level then record j { curr_level = j.curr_level - 1 } else j

  pub curr_level : Jems S → ℕ
  curr_level j = j.curr_level

  unfoldable pub item_count : Jems S → ℕ
  unfolding level_ref
  item_count j = (level_ref j).item_count

  module _ (writer : ℕ → S → S) where
    unfoldable pub emit_char : Jems S → ℕ → Jems S
    emit_char j ch = record j { arg = writer ch j.arg }

    pub emit_string : Jems S → Bytes → Jems S
    unfolding emit_char
    emit_string j [] = j
    emit_string j (c ∷ s) = emit_string (emit_char j c) s

    pub emit_quoted_byte : Jems S → ℕ → Jems S
    unfolding emit_char emit_string
    emit_quoted_byte j byte =
        if ltb byte 0x20 || leb 127 byte
        then emit_string j (unicode_escape byte)
        else let j' = if byte == b'\\' || byte == b'"' then emit_char j b'\\' else j in
          emit_char j' byte

    pub emit_quoted_string : Jems S → Bytes → Jems S
    unfolding emit_quoted_byte
    emit_quoted_string j [] = j
    emit_quoted_string j (c ∷ s) = emit_quoted_string (emit_quoted_byte j c) s

    -- The loop over the first `len` bytes.
    pub emit_quoted_bytes : Jems S → Bytes → ℕ → Jems S
    unfolding emit_quoted_string
    emit_quoted_bytes j bytes len = emit_quoted_string j (take len bytes)

    pub commify : Jems S → Jems S
    unfolding level_ref set_level emit_char
    commify j =
        let level = level_ref j in
        let count = level.item_count in
        let separated =
          if level.is_object
          then if ltb 0 count then emit_char j (if count % 2 == 1 then b':' else b',') else j
          else if ltb 0 count
          then emit_char j b','
          else j in
        set_level separated (record level { item_count = add_size count 1 })

    pub object_open : Jems S → Jems S
    object_open j = push_level (emit_char (commify j) b'{') true

    unfoldable pub object_close : Jems S → Jems S
    object_close j = pop_level (emit_char j b'}')

    pub array_open : Jems S → Jems S
    array_open j = push_level (emit_char (commify j) b'[') false

    pub array_close : Jems S → Jems S
    array_close j = pop_level (emit_char j b']')

    -- `char buf[22]` holds 21 characters and a NUL.
    pub integer : Jems S → ℤ → Jems S
    integer j value = emit_string (commify j) (take 21 (show_int value))

    pub string : Jems S → Bytes → Jems S
    string j s = emit_char (emit_quoted_string (emit_char (commify j) b'"') s) b'"'

    pub bytes : Jems S → Bytes → ℕ → Jems S
    bytes j bs length = emit_char (emit_quoted_bytes (emit_char (commify j) b'"') bs length) b'"'

    pub boolean : Jems S → Bool → Jems S
    boolean j b = emit_string (commify j) (if b then codes "true" else codes "false")

    pub yes : Jems S → Jems S
    unfolding boolean
    yes j = boolean j true

    pub no : Jems S → Jems S
    unfolding boolean
    no j = boolean j false

    pub null : Jems S → Jems S
    null j = emit_string (commify j) (codes "null")

    pub literal : Jems S → Bytes → ℕ → Jems S
    literal j text n_bytes = emit_string (commify j) (take n_bytes text)

    pub number : (d : Doubles) → Jems S → d.Double → Jems S
    number d j value =
        let i = d.to_int64 value in
        let buf = take 21 (if d.equal (d.of_int i) value then show_int i else d.show_lf value) in
        emit_string (commify j) buf

    unfoldable pub key_number : (d : Doubles) → Jems S → Bytes → d.Double → Jems S
    key_number d j key value = number d (string j key) value

    pub key_integer : Jems S → Bytes → ℤ → Jems S
    key_integer j key value = integer (string j key) value

    unfoldable pub key_string : Jems S → Bytes → Bytes → Jems S
    key_string j key s = string (string j key) s

    unfoldable pub key_bool : Jems S → Bytes → Bool → Jems S
    key_bool j key b = boolean (string j key) b

    pub key_object_open : Jems S → Bytes → Jems S
    key_object_open j key = object_open (string j key)

    pub key_array_open : Jems S → Bytes → Jems S
    key_array_open j key = array_open (string j key)

    pub key_bytes : Jems S → Bytes → Bytes → ℕ → Jems S
    key_bytes j key bs length = bytes (string j key) bs length

    pub key_true : Jems S → Bytes → Jems S
    key_true j key = yes (string j key)

    pub key_false : Jems S → Bytes → Jems S
    key_false j key = no (string j key)

    pub key_null : Jems S → Bytes → Jems S
    key_null j key = null (string j key)

    pub key_literal : Jems S → Bytes → Bytes → ℕ → Jems S
    key_literal j key text n_bytes = literal (string j key) text n_bytes
