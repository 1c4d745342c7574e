-- ===== src/Gts/Chunk/Pool.antt =====
-- The constant pool of chunk.rs for values that one key stands for: the index gives exactly the value.
use night.Gts.Chunk.Constants.{key_eq-eq, last_constant}
use night.Prelude.{
  some-eq, Bool-cases, Option-cases, length, get_elem?, get_elem?-kept, ℕ, ◌^◌, ◌≤◌, ◌<◌, ◌≡◌, refl,
  sym, inl, inr, some, List, ◌∷◌, ◌++◌, append-nil, arith, [], length-append, zero, suc, ap, ◌∙◌,
  none,
}
use night.Gts.Chunk.{
  key_undefined, key_null, key_bool, number_bits, key_string, Chunk, ConstKey, Object, find_key,
  number_bits, from_object, key_eq, add_constant, number, add_keyed, key_string, string, key_bool,
  boolean, null, undefined, key_null, as_u16,
}

-- The value of a key.
unfoldable pub of_key : ConstKey → Object
of_key (number_bits n) = number n
of_key (key_string s) = string s
of_key (key_bool b) = boolean b
of_key key_null = null
of_key key_undefined = undefined

abbrev pub ExactRows : List Object → List (ConstKey × ℕ) → Type 0
ExactRows constants [] = Unit
ExactRows constants ((key, i) ∷ rows) =
    (get_elem? constants i ≡ some (of_key key)) × ExactRows constants rows

-- Every row of the index names the value of its key.
abbrev pub IsExact : Chunk → Type 0
IsExact c = ExactRows c.constants c.const_index

-- A value that is the value of its key: no -0.0, no NaN, nothing behind a pointer.
abbrev pub IsKeyed : Object → Type 0
IsKeyed v = (key : ConstKey) × (from_object v ≡ some key) × (of_key key ≡ v)

ExactRows-append :
    (constants more : List Object) (rows : List (ConstKey × ℕ))
    → ExactRows constants rows
    → ExactRows (constants ++ more) rows
ExactRows-append constants more [] h = tt
ExactRows-append constants more ((key, i) ∷ rows) (row, h) =
    (get_elem?-kept constants more i (of_key key) row, ExactRows-append constants more rows h)

find_key-ExactRows :
    (key : ConstKey) (constants : List Object) (rows : List (ConstKey × ℕ)) (i : ℕ)
    → ExactRows constants rows
    → find_key key rows ≡ some i
    → get_elem? constants i ≡ some (of_key key)
unfolding find_key
find_key-ExactRows key constants [] i h e = ground arith
find_key-ExactRows key constants ((j, n) ∷ rows) i (row, h) e = elim (Bool-cases (key_eq j key)) [
  | inl same ↦
      let place : n ≡ i = some-eq (rw same at e) in rw (← place, ← key_eq-eq j key same) row
  | inr other ↦ find_key-ExactRows key constants rows i h (rw other at e)
]

get_elem?-lt {ℓ} :
    {A : Type ℓ} (xs : List A) (i : ℕ) (x : A) → get_elem? xs i ≡ some x → i < length xs
get_elem?-lt [] i x h = ground arith
get_elem?-lt (y ∷ xs) zero x h = omega arith
get_elem?-lt (y ∷ xs) (suc i) x h = omega (arith, get_elem?-lt xs i x h)

module _ (c : Chunk) (v : Object) (keyed : IsKeyed v) where
  abbrev added : Chunk
  added = record c {
    constants = c.constants ++ v ∷ [];
    const_index = (keyed.0, as_u16 (length c.constants)) ∷ c.const_index;
  }

  fresh_eq :
      find_key keyed.0 c.const_index ≡ none
      → add_constant c v ≡ (added, as_u16 (length c.constants))
  unfolding add_constant add_keyed
  fresh_eq fresh = rw (keyed.1, fresh, add_keyed)

  found_eq : (i : ℕ) → find_key keyed.0 c.const_index ≡ some i → add_constant c v ≡ (c, i)
  unfolding add_constant add_keyed
  found_eq i found = rw (keyed.1, found, add_keyed)

  -- The chunk after `add_constant`: the code and the constants before it stay.
  pub add_constant-grows :
      ((add_constant c v).0.code ≡ c.code)
      × ((more : List Object) × ((add_constant c v).0.constants ≡ c.constants ++ more))
  add_constant-grows = elim (Option-cases (find_key keyed.0 c.const_index)) [
    | inl fresh ↦ rw (fresh_eq fresh) (refl, (v ∷ [], refl))
    | inr (i, found) ↦ rw (found_eq i found) (refl, ([], sym (append-nil c.constants)))
  ]

  -- While the pool fits 2 ^ 16 constants, the index returned names the value itself.
  pub add_constant-IsExact :
      IsExact c
      → length (add_constant c v).0.constants ≤ 2 ^ 16
      → (get_elem? (add_constant c v).0.constants (add_constant c v).1 ≡ some v)
        × (((add_constant c v).1 < 2 ^ 16) × IsExact (add_constant c v).0)
  add_constant-IsExact exact room = elim (Option-cases (find_key keyed.0 c.const_index)) [
    | inl fresh ↦
        let fits : length (c.constants ++ v ∷ []) ≤ 2 ^ 16 = rw (fresh_eq fresh) at room in
        let small : length c.constants < 2 ^ 16 =
          omega (arith, fits, length-append {0} c.constants (v ∷ [])) in
        let last : get_elem? (c.constants ++ v ∷ []) (as_u16 (length c.constants)) ≡ some v =
          last_constant c.constants v small in
        rw (fresh_eq fresh) (
          last,
          (
            omega arith,
            (
              last ∙ ap some (sym keyed.2),
              ExactRows-append c.constants (v ∷ []) c.const_index exact,
            ),
          ),
        )
    | inr (i, found) ↦
        let place : get_elem? c.constants i ≡ some v =
          find_key-ExactRows keyed.0 c.constants c.const_index i exact found ∙ ap some keyed.2 in
        let fits : length c.constants ≤ 2 ^ 16 = rw (found_eq i found) at room in
        rw (found_eq i found) (place, (omega (arith, get_elem?-lt c.constants i v place), exact))
  ]
