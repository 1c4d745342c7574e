-- ===== src/Gts/Chunk/Constants.antt =====
-- The constant pool of chunk.rs.
use night.Text.{text_eq_iff, text_eq_refl}
use night.Gts.Chunk.{
  Object, Chunk, bool_eq, key_eq, from_object, ConstKey, object_eq, number_bits, f64_eq, key_string,
  key_bool, key_null, number, find_key, scan, as_u16, add_keyed, add_constant, key_undefined,
  string, boolean, null, undefined,
}
use night.Prelude.{
  ==_refl, get_elem?, ℕ, ◌≡◌, refl, sym, Bool, true, false, some, List, ◌∷◌, arith, [], some-eq,
  Bool-cases, Option-cases, length, get_elem?-append_right, get_elem?-kept, suc, ◌+◌, ◌^◌, ◌≤◌, ◌<◌,
  subst, ◌⊎◌, inl, inr, Option, none, ◌++◌, ◌≢◌,
}

-- A row of the index names the place of a constant with its key.
abbrev pub Rows : List Object → List (ConstKey × ℕ) → Type 0
Rows constants [] = Unit
Rows constants ((key, i) ∷ rows) =
    ((w : Object) × (get_elem? constants i ≡ some w) × (from_object w ≡ some key))
    × Rows constants rows

abbrev pub IsIndexed : Chunk → Type 0
IsIndexed c = Rows c.constants c.const_index

bool_eq-eq : (a b : Bool) → bool_eq a b ≡ true → a ≡ b
bool_eq-eq true b h = sym h
bool_eq-eq false b h = ground arith

pub key_eq-eq : (j k : ConstKey) → key_eq j k ≡ true → j ≡ k
unfolding key_eq
key_eq-eq (number_bits a) (number_bits b) h = ground arith
key_eq-eq (key_string a) (key_string b) h = ground (arith, text_eq_iff a b)
key_eq-eq (key_bool a) (key_bool b) h = ground (arith, bool_eq-eq a b)
key_eq-eq key_null key_null h = refl
key_eq-eq key_undefined key_undefined h = refl
key_eq-eq _ _ h = cc

bool_eq_refl : (a : Bool) → bool_eq a a ≡ true
bool_eq_refl true = refl
bool_eq_refl false = refl

key_eq_refl : (k : ConstKey) → key_eq k k ≡ true
unfolding key_eq
key_eq_refl (number_bits a) = ==_refl a
key_eq_refl (key_string a) = text_eq_refl a
key_eq_refl (key_bool a) = bool_eq_refl a
key_eq_refl key_null = refl
key_eq_refl key_undefined = refl

-- Values with one key are equal.
object_eq-key :
    (w v : Object) (key : ConstKey)
    → from_object w ≡ some key
    → from_object v ≡ some key
    → object_eq w v ≡ true
unfolding from_object object_eq f64_eq
object_eq-key (number a) (number b) key h k = ground arith
object_eq-key (string a) (string b) key h k = ground (arith, text_eq_iff a b)
object_eq-key (boolean a) (boolean b) key h k = ground (arith, bool_eq_refl a)
object_eq-key null null key h k = refl
object_eq-key undefined undefined key h k = refl
object_eq-key _ _ key h k = ground arith

-- An object that is kept stays at its place.
Rows-append :
    (constants more : List Object) (rows : List (ConstKey × ℕ))
    → Rows constants rows
    → Rows (constants ++ more) rows
Rows-append constants more [] h = tt
Rows-append constants more ((key, i) ∷ rows) ((w, at, k), h) =
    ((w, get_elem?-kept constants more i w at, k), Rows-append constants more rows h)

find_key-Rows :
    (key : ConstKey) (constants : List Object) (rows : List (ConstKey × ℕ)) (i : ℕ)
    → Rows constants rows
    → find_key key rows ≡ some i
    → (w : Object) × (get_elem? constants i ≡ some w) × (from_object w ≡ some key)
unfolding find_key
find_key-Rows key constants [] i h e = ground arith
find_key-Rows key constants ((j, n) ∷ rows) i (row, h) e = elim (Bool-cases (key_eq j key)) [
  | inl same ↦
      let place : n ≡ i = some-eq (rw same at e) in
      (row.0, rw (← place) row.1, rw (← key_eq-eq j key same) row.2)
  | inr other ↦ find_key-Rows key constants rows i h (rw other at e)
]

scan-some :
    (v : Object) (k : ℕ) (objects : List Object) (i : ℕ)
    → k + length objects ≤ 2 ^ 16
    → scan v k objects ≡ some i
    → (j : ℕ) × (w : Object) × (i ≡ k + j) × (get_elem? objects j ≡ some w) × (object_eq w v ≡ true)
unfolding scan
scan-some v k [] i le h = ground arith
scan-some v k (w ∷ objects) i le h = elim (Bool-cases (object_eq w v)) [
  | inl same ↦ (0, w, ground arith, refl, same)
  | inr other ↦
      let (j, x, e, at, eq) = scan-some v (k + 1) objects i (omega arith) (rw other at h) in
      (suc j, x, omega arith, at, eq)
]

-- What a caller gets: the constant is in the pool at the index returned, as itself or an equal.
abbrev pub Stored : Chunk → Object → ℕ → Type 0
Stored c v idx =
    (w : Object) × (get_elem? c.constants idx ≡ some w) × ((w ≡ v) ⊎ (object_eq w v ≡ true))

pub last_constant :
    (constants : List Object) (v : Object)
    → length constants < 2 ^ 16
    → get_elem? (constants ++ v ∷ []) (as_u16 (length constants)) ≡ some v
last_constant constants v h =
    get_elem?-append_right constants (v ∷ []) (as_u16 (length constants)) 0 (omega arith)

module _ (c : Chunk) (v : Object) (indexed : IsIndexed c) (room : length c.constants < 2 ^ 16) where
  add_keyed-Stored :
      (key : Option ConstKey)
      → from_object v ≡ key
      → Stored (add_keyed c v key).0 v (add_keyed c v key).1 × IsIndexed (add_keyed c v key).0
  unfolding add_keyed
  add_keyed-Stored none k = elim (Option-cases (scan v 0 c.constants)) [
    | inl fresh ↦
        rw (fresh, add_keyed)
          (
            (v, last_constant c.constants v room, inl refl),
            Rows-append c.constants (v ∷ []) c.const_index indexed,
          )
    | inr found ↦
        let (j, w, e, at, eq) = scan-some v 0 c.constants found.0 (omega arith) found.1 in
        rw (found.1, add_keyed)
          ((w, subst (λ n. get_elem? c.constants n ≡ some w) (omega arith) at, inr eq), indexed)
  ]
  add_keyed-Stored (some key) k = elim (Option-cases (find_key key c.const_index)) [
    | inl fresh ↦
        rw (fresh, add_keyed)
          (
            (v, last_constant c.constants v room, inl refl),
            (
              (v, last_constant c.constants v room, k),
              Rows-append c.constants (v ∷ []) c.const_index indexed,
            ),
          )
    | inr found ↦
        let (w, at, wk) = find_key-Rows key c.constants c.const_index found.0 indexed found.1 in
        rw (found.1, add_keyed) ((w, at, inr (object_eq-key w v key wk k)), indexed)
  ]

  -- While the pool has fewer than 2 ^ 16 constants, `add_constant` returns the index of the value
  -- or of an equal one, and keeps the index consistent with the pool.
  pub add_constant-Stored :
      Stored (add_constant c v).0 v (add_constant c v).1 × IsIndexed (add_constant c v).0
  unfolding add_constant
  add_constant-Stored = add_keyed-Stored (from_object v) refl

find_key-found :
    (c : Chunk) (v : Object) (key : ConstKey)
    → find_key key (add_keyed c v (some key)).0.const_index ≡ some (add_keyed c v (some key)).1
unfolding add_keyed
find_key-found c v key = elim (Option-cases (find_key key c.const_index)) [
  | inr found ↦ rw (found.1, add_keyed) found.1
  | inl fresh ↦ rw (fresh, add_keyed) (unfold find_key in rw (key_eq_refl key))
]

add_keyed-hit :
    (c : Chunk) (v : Object) (key : ConstKey) (i : ℕ)
    → find_key key c.const_index ≡ some i
    → add_keyed c v (some key) ≡ (c, i)
unfolding add_keyed
add_keyed-hit c v key i h = rw (h, add_keyed)

add_keyed_again :
    (c : Chunk) (v : Object) (key : ConstKey)
    → add_keyed (add_keyed c v (some key)).0 v (some key) ≡ add_keyed c v (some key)
add_keyed_again c v key =
    add_keyed-hit (add_keyed c v (some key)).0 v key (add_keyed c v (some key)).1
      (find_key-found c v key)

-- A primitive constant that is added again changes nothing and gets its first index.
add_constant_again :
    (c : Chunk) (v : Object)
    → from_object v ≢ none
    → add_constant (add_constant c v).0 v ≡ add_constant c v
unfolding add_constant
add_constant_again c v h = elim (Option-cases (from_object v)) [
  | inl e ↦ absurd (h e)
  | inr key ↦ rw key.1 (add_keyed_again c v key.0)
]

-- At 2 ^ 16 constants a new primitive gets index 0, which names the first constant of the pool: the
-- index wraps, and no error is reported.
pub add_constant-wraps :
    (c : Chunk) (v w : Object) (key : ConstKey)
    → from_object v ≡ some key
    → find_key key c.const_index ≡ none
    → length c.constants ≡ 2 ^ 16
    → get_elem? c.constants 0 ≡ some w
    → ((add_constant c v).1 ≡ 0) × (get_elem? (add_constant c v).0.constants 0 ≡ some w)
unfolding add_constant add_keyed
add_constant-wraps c v w key k fresh full first =
    rw (k, fresh, add_keyed) (omega (arith, full), get_elem?-kept c.constants (v ∷ []) 0 w first)
