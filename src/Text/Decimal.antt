-- ===== src/Text/Decimal.antt =====
-- `u64` in decimal: `Display` and `str::parse::<u64>`.
use night.Prelude.{
  ℕ, zero, suc, ◌+◌, ◌-◌, ◌*◌, ◌/◌, ◌%◌, ◌^◌, ◌&&◌, Option, none, some, [], ◌∷◌, ltb, leb, ◌==◌,
  if◌then◌else◌, length, Bool-cases, inl, inr, ◌<◌, ◌≤◌, ◌%◌, arith, all, ◌≡◌, refl, ◌∙◌, ◌≢◌, true,
}
use native.Mathlib.Nat.{pow-suc}
use night.Text.{Text, is_ascii_digit}

abbrev pub u64_max : ℕ
u64_max = 2 ^ 64 - 1

-- The digits of `n` in front of `acc`. Fuel above `n` is enough.
unfoldable pub digits : ℕ → ℕ → Text → Text
digits zero n acc = acc
digits (suc f) n acc =
    let rest = digits f (n / 10) ((48 + n % 10) ∷ acc) in if ltb n 10 then (48 + n) ∷ acc else rest

-- `n.to_string()`.
unfoldable pub to_decimal : ℕ → Text
unfolding digits
to_decimal n = digits (suc n) n []

-- The value of a string of digits read after `n`, with the overflow check of `parse::<u64>`.
unfoldable pub read_digits : ℕ → Text → Option ℕ
unfolding is_ascii_digit
read_digits n [] = some n
read_digits n (c ∷ s) =
    let m = n * 10 + (c - 48) in if is_ascii_digit c && leb m u64_max then read_digits m s else none

-- `s.parse::<u64>().ok()`: a leading `+` is allowed, and at least one digit is needed.
unfoldable pub parse_u64 : Text → Option ℕ
unfolding read_digits
parse_u64 [] = none
parse_u64 (c ∷ []) = if c == b'+' then none else read_digits 0 (c ∷ [])
parse_u64 (c ∷ d ∷ s) = if c == b'+' then read_digits 0 (d ∷ s) else read_digits 0 (c ∷ d ∷ s)

length-digits :
    (k f n : ℕ) (acc : Text) → n < 10 ^ suc k → length (digits f n acc) ≤ suc k + length acc
unfolding digits
length-digits k zero n acc h = omega arith
length-digits zero (suc f) n acc h = ground arith
length-digits (suc k) (suc f) n acc h = elim (Bool-cases (ltb n 10)) [
  | inl one ↦ rw one (omega arith)
  | inr more ↦ rw more (
      omega (
        arith,
        length-digits k f (n / 10) ((48 + n % 10) ∷ acc) (omega (arith, pow-suc 10 (suc k))),
      ))
]

-- A number of 64 bits has 20 digits at most.
pub length-to_decimal : (n : ℕ) → n ≤ u64_max → length (to_decimal n) ≤ 20
unfolding to_decimal
length-to_decimal n h = omega (arith, length-digits 19 (suc n) n [] (omega arith))

digits-all :
    (f n : ℕ) (acc : Text)
    → all is_ascii_digit acc ≡ true
    → all is_ascii_digit (digits f n acc) ≡ true
unfolding digits is_ascii_digit
digits-all zero n acc h = h
digits-all (suc f) n acc h = ground (arith, digits-all f (n / 10) ((48 + n % 10) ∷ acc))

pub all-to_decimal : (n : ℕ) → all is_ascii_digit (to_decimal n) ≡ true
unfolding to_decimal
all-to_decimal n = digits-all (suc n) n [] refl

read_digits-digits :
    (f n : ℕ) (acc : Text)
    → n < f
    → n ≤ u64_max
    → read_digits 0 (digits f n acc) ≡ read_digits n acc
unfolding digits read_digits
read_digits-digits zero n acc h k = absurd (omega arith)
read_digits-digits (suc f) n acc h k = elim (Bool-cases (ltb n 10)) [
  | inl one ↦ rw one (ground arith)
  | inr more ↦ rw more (
      read_digits-digits f (n / 10) ((48 + n % 10) ∷ acc) (ground arith) (omega arith)
      ∙ (let whole : n / 10 * 10 + (48 + n % 10 - 48) ≡ n = omega arith in rw whole (ground arith)))
]

parse_u64-digit :
    (c : ℕ) (s : Text) → is_ascii_digit c ≡ true → parse_u64 (c ∷ s) ≡ read_digits 0 (c ∷ s)
unfolding parse_u64 is_ascii_digit
parse_u64-digit c [] h = ground arith
parse_u64-digit c (d ∷ s) h = ground arith

parse_u64-digits : (s : Text) → all is_ascii_digit s ≡ true → s ≢ [] → parse_u64 s ≡ read_digits 0 s
parse_u64-digits [] h k = absurd (k refl)
parse_u64-digits (c ∷ s) h k = parse_u64-digit c s (ground arith)

digits-ne-nil : (f n : ℕ) (acc : Text) → acc ≢ [] → digits f n acc ≢ []
unfolding digits
digits-ne-nil zero n acc h = h
digits-ne-nil (suc f) n acc h = ground (arith, digits-ne-nil f (n / 10) ((48 + n % 10) ∷ acc))

pub to_decimal-ne-nil : (n : ℕ) → to_decimal n ≢ []
unfolding to_decimal digits
to_decimal-ne-nil n = ground (arith, digits-ne-nil n (n / 10) ((48 + n % 10) ∷ []))

-- Reading back what is printed.
pub parse_u64-to_decimal : (n : ℕ) → n ≤ u64_max → parse_u64 (to_decimal n) ≡ some n
unfolding read_digits
parse_u64-to_decimal n h =
    parse_u64-digits (to_decimal n) (all-to_decimal n) (to_decimal-ne-nil n)
    ∙ (unfold to_decimal in read_digits-digits (suc n) n [] (omega arith) h)
