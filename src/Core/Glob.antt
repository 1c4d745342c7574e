-- ===== src/Core/Glob.antt =====
-- crates/night24-core/src/tool_executor/filesystem.rs: `glob_match`, and what a pattern denotes.
use night.Prelude.{
  ◌==◌, if◌then◌else◌, ==_iff, Bool-cases, length, ℕ, ◌≡◌, refl, ap, ◌≢◌, ◌⊎◌, inl, inr, Bool, true,
  false, ◌&&◌, ◌||◌, ◌∷◌, ◌++◌, arith, [], not, ◌↔◌,
}
use night.Text.{Text}

-- The loop behind a star: at each rest of the name that is not empty, and then at the empty one.
unfoldable pub star : (Text → Bool) → Bool → Text → Bool
star matches last [] = last
star matches last (ch ∷ name) = let later = star matches last name in matches (ch ∷ name) || later

abbrev pub is_empty : Text → Bool
is_empty [] = true
is_empty (ch ∷ text) = false

abbrev behind_one : (Text → Bool) → Text → Bool
behind_one matches [] = false
behind_one matches (ch ∷ name) = matches name

abbrev behind_char : ℕ → (Text → Bool) → Text → Bool
behind_char p matches [] = false
behind_char p matches (ch ∷ name) = ch == p && matches name

unfoldable pub glob_match : Text → Text → Bool
glob_match [] name = is_empty name
glob_match (p ∷ pattern_) name =
    let matches = glob_match pattern_ in
    if p == 42
    then star matches (is_empty pattern_) name
    else if p == 63
    then behind_one matches name
    else behind_char p matches name

-- A star stands for any text, a question mark for one character, and any other character for itself.
abbrev pub Piece : ℕ → Text → Type 0
Piece p part = (p ≡ 42) ⊎ ((p ≡ 63) × (length part ≡ 1)) ⊎ ((p ≢ 42) × (p ≢ 63) × (part ≡ p ∷ []))

-- The names that a pattern denotes: those that are the parts of its characters, in order.
unfoldable pub Denotes : Text → Text → Type 0
Denotes [] name = name ≡ []
Denotes (p ∷ pattern_) name =
    (part rest : Text) × (name ≡ part ++ rest) × Piece p part × Denotes pattern_ rest

star-true :
    (matches : Text → Bool) (last : Bool) (name : Text)
    → star matches last name ≡ true
    → (part rest : Text) × (name ≡ part ++ rest)
      × ((matches rest ≡ true) ⊎ ((rest ≡ []) × (last ≡ true)))
unfolding star
star-true matches last [] h = ([], [], refl, inr (refl, h))
star-true matches last (ch ∷ name) h = elim (Bool-cases (matches (ch ∷ name))) [
  | inl t ↦ ([], ch ∷ name, refl, inl t)
  | inr f ↦
      let (part, rest, e, found) = star-true matches last name (rw (f, star) at h) in
      (ch ∷ part, rest, ap (λ t. ch ∷ t) e, found)
]

empty-Denotes :
    (pattern_ rest : Text) → rest ≡ [] → is_empty pattern_ ≡ true → Denotes pattern_ rest
unfolding Denotes
empty-Denotes [] rest e h = e
empty-Denotes (p ∷ pattern_) rest e h = ground arith

behind_one-true :
    (matches : Text → Bool) (name : Text)
    → behind_one matches name ≡ true
    → (part rest : Text) × (name ≡ part ++ rest) × (length part ≡ 1) × (matches rest ≡ true)
behind_one-true matches [] h = ground arith
behind_one-true matches (ch ∷ name) h = (ch ∷ [], name, refl, omega arith, h)

behind_char-true :
    (p : ℕ) (matches : Text → Bool) (name : Text)
    → behind_char p matches name ≡ true
    → (rest : Text) × (name ≡ p ∷ rest) × (matches rest ≡ true)
behind_char-true p matches [] h = ground arith
behind_char-true p matches (ch ∷ name) h =
    let same : (ch == p) ≡ true = ground arith in
    (name, ap (λ c. c ∷ name) ((==_iff ch p).0 same), ground arith)

other_char : (p k : ℕ) → (p == k) ≡ false → p ≢ k
other_char p k f e = ground arith

-- A name that `glob_match` accepts is one that the pattern denotes.
glob_match-Denotes :
    (pattern_ name : Text) → glob_match pattern_ name ≡ true → Denotes pattern_ name
unfolding glob_match Denotes
glob_match-Denotes [] [] h = refl
glob_match-Denotes [] (ch ∷ name) h = ground arith
glob_match-Denotes (p ∷ pattern_) name h = elim (Bool-cases (p == 42)) [
  | inl t ↦
      let (part, rest, e, found) =
        star-true (glob_match pattern_) (is_empty pattern_) name (rw (t, glob_match) at h) in
      (
        part,
        rest,
        e,
        inl ((==_iff p 42).0 t),
        elim found [
          | inl k ↦ glob_match-Denotes pattern_ rest k
          | inr (r, l) ↦ empty-Denotes pattern_ rest r l
        ],
      )
  | inr f ↦ elim (Bool-cases (p == 63)) [
    | inl t ↦
        let (part, rest, e, n, k) =
          behind_one-true (glob_match pattern_) name (rw (f, t, glob_match) at h) in
        (part, rest, e, inr (inl ((==_iff p 63).0 t, n)), glob_match-Denotes pattern_ rest k)
    | inr g ↦
        let (rest, e, k) =
          behind_char-true p (glob_match pattern_) name (rw (f, g, glob_match) at h) in
        (
          p ∷ [],
          rest,
          e,
          inr (inr (other_char p 42 f, other_char p 63 g, refl)),
          glob_match-Denotes pattern_ rest k,
        )
  ]
]

abbrev starts_with_star : Text → Bool
starts_with_star [] = false
starts_with_star (p ∷ pattern_) = p == 42

-- No star stands behind a star.
unfoldable pub single_stars : Text → Bool
single_stars [] = true
single_stars (p ∷ pattern_) =
    let rest = single_stars pattern_ in not (p == 42 && starts_with_star pattern_) && rest

star-found :
    (matches : Text → Bool) (last : Bool) (part rest : Text)
    → ((matches rest ≡ true) × (rest ≢ [])) ⊎ ((rest ≡ []) × (last ≡ true))
    → star matches last (part ++ rest) ≡ true
unfolding star
star-found matches last [] [] (inl (k, n)) = absurd (n refl)
star-found matches last [] (ch ∷ rest) (inl (k, n)) = rw (k, star) refl
star-found matches last [] rest (inr (e, l)) = rw (e, star) l
star-found matches last (ch ∷ part) rest h =
    let later : star matches last (part ++ rest) ≡ true = star-found matches last part rest h in
    rw (later, star) (or_true (matches (ch ∷ (part ++ rest))))
  where
    or_true : (a : Bool) → (a || true) ≡ true
    or_true a = ground arith

-- The part of a character that is no star is not empty.
Piece-nonempty :
    (p : ℕ) (part rest : Text) → (p == 42) ≡ false → Piece p part → [] ≡ part ++ rest → ⊥
Piece-nonempty p [] rest f (inl t) e = ground arith
Piece-nonempty p [] rest f (inr (inl (t, n))) e = absurd (omega (arith, n))
Piece-nonempty p [] rest f (inr (inr (g, h, same))) e = absurd (omega (arith, ap length same))
Piece-nonempty p (ch ∷ part) rest f piece e = absurd (omega (arith, ap length e))

empty-or :
    (pattern_ rest : Text)
    → glob_match pattern_ rest ≡ true
    → starts_with_star pattern_ ≡ false
    → Denotes pattern_ rest
    → ((glob_match pattern_ rest ≡ true) × (rest ≢ [])) ⊎ ((rest ≡ []) × (is_empty pattern_ ≡ true))
unfolding Denotes
empty-or pattern_ (ch ∷ rest) k s d = inl (k, λ e. absurd (omega (arith, ap length e)))
empty-or [] [] k s d = inr (refl, refl)
empty-or (p ∷ pattern_) [] k s (part, rest, e, piece, d) =
    absurd (Piece-nonempty p part rest s piece e)

behind_one-found :
    (matches : Text → Bool) (part rest : Text)
    → length part ≡ 1
    → matches rest ≡ true
    → behind_one matches (part ++ rest) ≡ true
behind_one-found matches [] rest n k = absurd (omega (arith, n))
behind_one-found matches (ch ∷ []) rest n k = k
behind_one-found matches (ch ∷ next ∷ part) rest n k = absurd (omega (arith, n))

char_is : (p k : ℕ) → p ≢ k → (p == k) ≡ false
char_is p k h = ground arith

-- A name that a pattern denotes is accepted by `glob_match`, where no star stands behind a star.
Denotes-glob_match :
    (pattern_ name : Text)
    → single_stars pattern_ ≡ true
    → Denotes pattern_ name
    → glob_match pattern_ name ≡ true
unfolding glob_match Denotes single_stars
Denotes-glob_match [] name s d = rw d refl
Denotes-glob_match (p ∷ pattern_) name s (part, rest, e, piece, d) =
    let more : glob_match pattern_ rest ≡ true =
      Denotes-glob_match pattern_ rest (ground arith) d in
    elim piece [
      | inl t ↦
          let star_ : (p == 42) ≡ true = (==_iff p 42).1 t in
          rw (star_, e, glob_match)
            (star-found (glob_match pattern_) (is_empty pattern_) part rest
              (empty-or pattern_ rest more (ground arith) d))
      | inr (inl (t, n)) ↦
          rw (t, e, glob_match) (behind_one-found (glob_match pattern_) part rest n more)
      | inr (inr (f, g, same)) ↦
          rw (char_is p 42 f, char_is p 63 g, e, same, glob_match) (rw ((==_iff p p).1 refl) more)
    ]

-- Where no star stands behind a star, `glob_match` accepts the names that the pattern denotes, and no others.
pub glob_match_iff :
    (pattern_ name : Text)
    → single_stars pattern_ ≡ true
    → (glob_match pattern_ name ≡ true) ↔ Denotes pattern_ name
glob_match_iff pattern_ name s =
    (glob_match-Denotes pattern_ name, Denotes-glob_match pattern_ name s)
