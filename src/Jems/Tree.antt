-- ===== src/Jems/Tree.antt =====
-- Whole JSON values: the calls of jems.c that serialize them, and their text.
pub mod Places
pub mod Shown
mod Tests
pub mod Written
use toy_tstat.Common.{ℕ, ◌+◌, ◌^◌, ◌≤◌, max, Bool, ◌∷◌, [], ◌++◌, if◌then◌else◌}
use toy_tstat.Common.Ints.{ℤ, abs}
use toy_tstat.Common.Chars.{Bytes, codes, show_int}
use toy_tstat.Jems
use toy_tstat.Jems.Feed.{quote}

mutual
  pub data Value : Type 0 where
    null : Value
    boolean : Bool → Value
    int : ℤ → Value
    str : Bytes → Value
    arr : Items → Value
    obj : Fields → Value

  pub data Items : Type 0 where
    nil : Items
    cons : Value → Items → Items

  pub data Fields : Type 0 where
    end : Fields
    field : Bytes → Value → Fields → Fields

-- The text of a value in JSON. `more` is what stands behind a first item or field.
unfoldable mutual
  pub show : Value → Bytes
  show null = codes "null"
  show (boolean b) = if b then codes "true" else codes "false"
  show (int z) = show_int z
  show (str s) = quote s
  show (arr xs) = b'[' ∷ (show_items xs ++ b']' ∷ [])
  show (obj fs) = b'{' ∷ (show_fields fs ++ b'}' ∷ [])

  pub show_items : Items → Bytes
  show_items nil = []
  show_items (cons v xs) = show v ++ more_items xs

  pub more_items : Items → Bytes
  more_items nil = []
  more_items (cons v xs) = b',' ∷ (show v ++ more_items xs)

  pub show_fields : Fields → Bytes
  show_fields end = []
  show_fields (field k v fs) = quote k ++ (b':' ∷ (show v ++ more_fields fs))

  pub more_fields : Fields → Bytes
  more_fields end = []
  more_fields (field k v fs) = b',' ∷ (quote k ++ (b':' ∷ (show v ++ more_fields fs)))

-- How many levels of brackets there are.
unfoldable mutual
  pub depth : Value → ℕ
  depth (arr xs) = 1 + depth_items xs
  depth (obj fs) = 1 + depth_fields fs
  depth v = 0

  pub depth_items : Items → ℕ
  depth_items nil = 0
  depth_items (cons v xs) = max (depth v) (depth_items xs)

  pub depth_fields : Fields → ℕ
  depth_fields end = 0
  depth_fields (field k v fs) = max (depth v) (depth_fields fs)

-- How many items, keys and values there are.
unfoldable mutual
  pub size : Value → ℕ
  size (arr xs) = size_items xs
  size (obj fs) = size_fields fs
  size v = 0

  pub size_items : Items → ℕ
  size_items nil = 0
  size_items (cons v xs) = 1 + size v + size_items xs

  pub size_fields : Fields → ℕ
  size_fields end = 0
  size_fields (field k v fs) = 2 + size v + size_fields fs

-- The integers are values of `int64_t`.
unfoldable mutual
  pub HasInt64s : Value → Type 0
  HasInt64s (int z) = abs z ≤ 2 ^ 63
  HasInt64s (arr xs) = ItemsHaveInt64s xs
  HasInt64s (obj fs) = FieldsHaveInt64s fs
  HasInt64s v = Unit

  pub ItemsHaveInt64s : Items → Type 0
  ItemsHaveInt64s nil = Unit
  ItemsHaveInt64s (cons v xs) = HasInt64s v × ItemsHaveInt64s xs

  pub FieldsHaveInt64s : Fields → Type 0
  FieldsHaveInt64s end = Unit
  FieldsHaveInt64s (field k v fs) = HasInt64s v × FieldsHaveInt64s fs

-- A value serialized by one call for each of its parts.
module _ {ℓ} {S : Type ℓ} (writer : ℕ → S → S) where
  unfoldable mutual
    pub write : Jems.Jems S → Value → Jems.Jems S
    write j null = Jems.null writer j
    write j (boolean b) = Jems.boolean writer j b
    write j (int z) = Jems.integer writer j z
    write j (str s) = Jems.string writer j s
    write j (arr xs) = Jems.array_close writer (write_items (Jems.array_open writer j) xs)
    write j (obj fs) = Jems.object_close writer (write_fields (Jems.object_open writer j) fs)

    pub write_items : Jems.Jems S → Items → Jems.Jems S
    write_items j nil = j
    write_items j (cons v xs) = write_items (write j v) xs

    pub write_fields : Jems.Jems S → Fields → Jems.Jems S
    write_fields j end = j
    write_fields j (field k v fs) = write_fields (write (Jems.string writer j k) v) fs
