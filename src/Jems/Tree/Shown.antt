-- ===== src/Jems/Tree/Shown.antt =====
-- The calls for a value write its text.
use toy_tstat.Common.{
  get_or, set, get_or-set_self, length-set, List, ℕ, ◌+◌, ◌%◌, ◌^◌, ◌<◌, ◌≤◌, ◌≡◌, refl, sym, ap,
  ◌∙◌, [], ◌∷◌, ◌++◌, length, append_assoc, arith, append-nil,
}
use mathlib.Core.Path.{subst}
use toy_tstat.Common.Ints.{add_size}
use toy_tstat.Common.Chars.{Bytes}
use toy_tstat.Jems
use toy_tstat.Jems.Feed.{
  separator, bump, feed, quote, item, null-item, boolean-item, integer-item, string-item,
}
use toy_tstat.Jems.Tree.{
  Value, null, boolean, int, str, arr, obj, Items, nil, cons, Fields, end, field, show, show_items,
  more_items, show_fields, more_fields, depth, depth_items, depth_fields, size, size_items,
  size_fields, HasInt64s, ItemsHaveInt64s, FieldsHaveInt64s, write, write_items, write_fields,
}
use toy_tstat.Jems.Tree.Written.{
  Wrote, Inside, item-Wrote, Inside-Wrote, array_open-Inside, object_open-Inside, array_close-Wrote,
  object_close-Wrote,
}
use toy_tstat.Jems.Tree.Places.{
  int64_fits, list_level, map_level, bump_list, bump_map, bump_value, separator_list, separator_key,
  separator_value,
}

module _ {ℓ} {S : Type ℓ} (writer : ℕ → S → S) where
  -- There is room for `d` brackets, one in the other.
  pub record Room (j : Jems.Jems S) (d : ℕ) : Type 0 where
    pub deep : j.curr_level + d < j.max_level
    pub small : j.max_level < 2 ^ 64
    pub fits : j.max_level ≤ length j.levels

  Room-inside :
      (j k : Jems.Jems S) (t : Bytes) (l : Jems.Level) (d e : ℕ)
      → Inside writer j t l k
      → Room j (1 + d)
      → e ≤ d
      → Room k e
  Room-inside j k t l d e s r le = record {
    deep = omega (arith, s.deeper, s.same_max, r.deep);
    small = omega (arith, s.same_max, r.small);
    fits = omega (arith, s.same_max, s.same_length, r.fits);
  }

  Room-less : (j : Jems.Jems S) (d e : ℕ) → Room j d → e ≤ d → Room j e
  Room-less j d e r le = record { deep = omega (arith, r.deep); small = r.small; fits = r.fits }

  item_in : (j : Jems.Jems S) (t : Bytes) → Room j 0 → Wrote writer j t (item writer j t)
  item_in j t r = item-Wrote writer j t (omega (arith, r.deep, r.fits))

  string_in :
      (j : Jems.Jems S) (s : Bytes) → Room j 0 → Wrote writer j (quote s) (Jems.string writer j s)
  string_in j s r =
      subst (Wrote writer j (quote s)) (sym (string-item writer j s)) (item_in j (quote s) r)

  step :
      {j k m : Jems.Jems S} {t u s : Bytes} {l l' : Jems.Level}
      → Inside writer j t l k
      → Wrote writer k u m
      → separator l ≡ s
      → bump l ≡ l'
      → Inside writer j (t ++ (s ++ u)) l' m
  step {j} {k} {m} {t} {u} {s} {l} {l'} i w e b =
      subst (λ x. Inside writer j (t ++ (x ++ u)) l' m) e
        (subst (λ x. Inside writer j (t ++ (separator l ++ u)) x m) b
          (Inside-Wrote writer j k m t u l i w))

  reads_as :
      {j k : Jems.Jems S} (t u : Bytes)
      → t ≡ u
      → (l : Jems.Level) × Inside writer j t l k
      → (l : Jems.Level) × Inside writer j u l k
  reads_as {j} {k} t u e (l, i) = (l, subst (λ x. Inside writer j x l k) e i)

  -- Nothing more is written.
  done :
      {j k : Jems.Jems S} (t : Bytes) {l : Jems.Level}
      → Inside writer j t l k
      → (l : Jems.Level) × Inside writer j (t ++ []) l k
  done t {l} i = reads_as t (t ++ []) (sym (append-nil t)) (l, i)

  -- A key behind `s`, and then a value, wherever there is room for `d` brackets.
  field-Inside :
      (key u : Bytes) (n : ℕ) (j k m : Jems.Jems S) (t s : Bytes) (d : ℕ)
      → n % 2 ≡ 0
      → n + 2 < 2 ^ 64
      → separator (map_level n) ≡ s
      → Inside writer j t (map_level n) k
      → Room j (1 + d)
      → (Room (Jems.string writer k key) d → Wrote writer (Jems.string writer k key) u m)
      → Inside writer j ((t ++ (s ++ quote key)) ++ b':' ∷ u) (map_level (n + 2)) m
  field-Inside key u n j k m t s d even small sep i r value =
      let k' = Jems.string writer k key in
      let w = string_in k key (Room-inside j k t _ d 0 i r (omega arith)) in
      let named = step i w sep (bump_map n (omega arith)) in
      step named (value (Room-inside j k' _ _ d d named r (omega arith))) (separator_value n even)
        (bump_value n small)

  mutual
    unfolding show depth size HasInt64s write separator

    show-Wrote :
        (v : Value) (j : Jems.Jems S)
        → Room j (depth v)
        → size v < 2 ^ 64
        → HasInt64s v
        → Wrote writer j (show v) (write writer j v)
    show-Wrote null j r small ints =
        subst (Wrote writer j _) (sym (null-item writer j)) (item_in j _ r)
    show-Wrote (boolean b) j r small ints =
        subst (Wrote writer j _) (sym (boolean-item writer j b)) (item_in j _ r)
    show-Wrote (int z) j r small ints =
        subst (Wrote writer j _)
          (sym (integer-item writer j z ∙ ap (item writer j) (int64_fits z ints))) (item_in j _ r)
    show-Wrote (str s) j r small ints = string_in j s r
    show-Wrote (arr xs) j r small ints =
        let opened = array_open-Inside writer j (omega (arith, r.deep)) r.small r.fits in
        let (l, filled) =
          items-Inside xs j (Jems.array_open writer j) (b'[' ∷ []) opened r small ints in
        array_close-Wrote writer j _ _ l filled
    show-Wrote (obj fs) j r small ints =
        let opened = object_open-Inside writer j (omega (arith, r.deep)) r.small r.fits in
        let (l, filled) =
          fields-Inside fs j (Jems.object_open writer j) (b'{' ∷ []) opened r small ints in
        object_close-Wrote writer j _ _ l filled

    items-Inside :
        (xs : Items) (j k : Jems.Jems S) (t : Bytes)
        → Inside writer j t (list_level 0) k
        → Room j (1 + depth_items xs)
        → size_items xs < 2 ^ 64
        → ItemsHaveInt64s xs
        → (l : Jems.Level) × Inside writer j (t ++ show_items xs) l (write_items writer k xs)
    items-Inside nil j k t s r small ints = done t s
    items-Inside (cons v xs) j k t s r small (i, is) =
        let w =
          show-Wrote v k (Room-inside j k t _ (depth_items (cons v xs)) (depth v) s r (omega arith))
            (omega arith) i in
        let s' = step s w refl (bump_list 0 (omega arith)) in
        let r' = Room-less j (1 + depth_items (cons v xs)) (1 + depth_items xs) r (omega arith) in
        reads_as _ _ (append_assoc t (show v) (more_items xs))
          (more_items-Inside xs 0 j (write writer k v) (t ++ show v) s' r' (omega arith) is)

    more_items-Inside :
        (xs : Items) (n : ℕ) (j k : Jems.Jems S) (t : Bytes)
        → Inside writer j t (list_level (n + 1)) k
        → Room j (1 + depth_items xs)
        → n + 1 + size_items xs < 2 ^ 64
        → ItemsHaveInt64s xs
        → (l : Jems.Level) × Inside writer j (t ++ more_items xs) l (write_items writer k xs)
    more_items-Inside nil n j k t s r small ints = done t s
    more_items-Inside (cons v xs) n j k t s r small (i, is) =
        let w =
          show-Wrote v k (Room-inside j k t _ (depth_items (cons v xs)) (depth v) s r (omega arith))
            (omega arith) i in
        let s' = step s w (separator_list n) (bump_list (n + 1) (omega arith)) in
        let r' = Room-less j (1 + depth_items (cons v xs)) (1 + depth_items xs) r (omega arith) in
        reads_as _ _ (append_assoc t (b',' ∷ show v) (more_items xs)) (
          more_items-Inside xs (n + 1) j (write writer k v) (t ++ b',' ∷ show v) s' r' (omega arith)
            is)

    fields-Inside :
        (fs : Fields) (j k : Jems.Jems S) (t : Bytes)
        → Inside writer j t (map_level 0) k
        → Room j (1 + depth_fields fs)
        → size_fields fs < 2 ^ 64
        → FieldsHaveInt64s fs
        → (l : Jems.Level) × Inside writer j (t ++ show_fields fs) l (write_fields writer k fs)
    fields-Inside end j k t i r small ints = done t i
    fields-Inside (field key v fs) j k t i r small (a, others) =
        let d = depth_fields (field key v fs) in
        let k' = Jems.string writer k key in
        let value = λ (room : Room k' d).
          show-Wrote v k' (Room-less k' d (depth v) room (omega arith)) (omega arith) a in
        let first =
          field-Inside key (show v) 0 j k (write writer k' v) t [] d refl (omega arith) refl i r
            value in
        let r' = Room-less j (1 + d) (1 + depth_fields fs) r (omega arith) in
        reads_as _ _
          (append_assoc (t ++ quote key) (b':' ∷ show v) (more_fields fs)
            ∙ append_assoc t (quote key) (b':' ∷ (show v ++ more_fields fs)))
          (more_fields-Inside fs 0 j _ _ refl first r' (omega arith) others)

    more_fields-Inside :
        (fs : Fields) (n : ℕ) (j k : Jems.Jems S) (t : Bytes)
        → n % 2 ≡ 0
        → Inside writer j t (map_level (n + 2)) k
        → Room j (1 + depth_fields fs)
        → n + 2 + size_fields fs < 2 ^ 64
        → FieldsHaveInt64s fs
        → (l : Jems.Level) × Inside writer j (t ++ more_fields fs) l (write_fields writer k fs)
    more_fields-Inside end n j k t even i r small ints = done t i
    more_fields-Inside (field key v fs) n j k t even i r small (a, others) =
        let d = depth_fields (field key v fs) in
        let even' : (n + 2) % 2 ≡ 0 = omega arith in
        let k' = Jems.string writer k key in
        let value = λ (room : Room k' d).
          show-Wrote v k' (Room-less k' d (depth v) room (omega arith)) (omega arith) a in
        let next =
          field-Inside key (show v) (n + 2) j k (write writer k' v) t (b',' ∷ []) d even'
            (omega arith) (separator_key n even) i r value in
        let r' = Room-less j (1 + d) (1 + depth_fields fs) r (omega arith) in
        reads_as _ _
          (append_assoc (t ++ b',' ∷ quote key) (b':' ∷ show v) (more_fields fs)
            ∙ append_assoc t (b',' ∷ quote key) (b':' ∷ (show v ++ more_fields fs)))
          (more_fields-Inside fs (n + 2) j _ _ even' next r' (omega arith) others)

  -- From a fresh serializer, the calls for a value, an object or an array of whatever depth the levels
  -- allow, hand its text in JSON to the writer, and end at level 0 with one item there. The integers are
  -- values of int64_t, and no count of items gets to 2 ^ 64.
  pub write-show :
      (v : Value) (j : Jems.Jems S) (levels : List Jems.Level) (max_level : ℕ) (arg : S)
      → depth v < max_level
      → max_level < 2 ^ 64
      → max_level ≤ length levels
      → size v < 2 ^ 64
      → HasInt64s v
      → let k = write writer (Jems.init j levels max_level arg) v in
        (k.arg ≡ feed writer (show v) arg) × (Jems.curr_level k ≡ 0) × (Jems.item_count k ≡ 1)
  unfolding Jems.init Jems.reset Jems.set_level Jems.curr_level Jems.item_count Jems.level_ref
      separator bump
  write-show v j levels max_level arg deep small fits many ints =
      let start = Jems.init j levels max_level arg in
      let first : get_or (set levels 0 Jems.unset) 0 Jems.unset ≡ Jems.unset =
        get_or-set_self levels 0 _ _ (omega arith) in
      let kept = length-set levels 0 Jems.unset in
      let w =
        show-Wrote v start
          (record { deep = omega arith; small = small; fits = omega (arith, kept) }) many ints in
      (
        w.written ∙ ap (λ l. feed writer (separator l ++ show v) arg) first,
        w.same_level,
        ap (λ i. (get_or (write writer start v).levels i Jems.unset).item_count) w.same_level
            ∙ ap (λ l. l.item_count) w.bumped
            ∙ ap (λ l. add_size l.item_count 1) first,
      )
