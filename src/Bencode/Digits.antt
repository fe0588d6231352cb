-- ===== src/Bencode/Digits.antt =====
-- Numbers printed and read back in base ten.
use bittorrent_application_l.Base.{
  ℕ, zero, suc, ◌+◌, ◌-◌, ◌*◌, ◌/◌, ◌%◌, ◌^◌, ◌≤◌, ◌<◌, ◌≡◌, refl, ◌∙◌, inl, inr, Option, none,
  some, [], ◌∷◌, arith, ltb, leb, ◌==◌, Bool-cases, ℤ, pos, negsuc, neg, IsInt, ltb_false→le,
  ltb→lt,
}
use bittorrent_application_l.Bencode.{Text}
use bittorrent_application_l.Bencode.Decimal.{
  is_space, magnitude, digits_of, to_positive, to_negative, leb→le, noexcept_stoi, digits, decimal,
  to_string,
}

abbrev pub IsDigit : ℕ → Type 0
IsDigit c = (b'0' ≤ c) × (c ≤ b'9')

abbrev pub All : (ℕ → Type 0) → Text → Type 0
All P [] = Unit {0}
All P (c ∷ s) = P c × All P s

pub All-mono : (P Q : ℕ → Type 0) → ((c : ℕ) → P c → Q c) → (s : Text) → All P s → All Q s
All-mono P Q f [] h = tt
All-mono P Q f (c ∷ s) (p, h) = (f c p, All-mono P Q f s h)

-- A digit first and digits after it.
abbrev IsNumber : Text → Type 0
IsNumber [] = ⊥
IsNumber (c ∷ s) = IsDigit c × All IsDigit s

magnitude_digit :
    (n c : ℕ) (s : Text) → IsDigit c → magnitude n (c ∷ s) ≡ magnitude (n * 10 + (c - b'0')) s
unfolding magnitude
magnitude_digit n c s h = ground arith

digit_last : (n : ℕ) → (n / 10) * 10 + (b'0' + n % 10 - b'0') ≡ n
digit_last n = omega arith

digits-IsNumber : (f n : ℕ) (out : Text) → n < f → All IsDigit out → IsNumber (digits f n out)
unfolding digits
digits-IsNumber zero n out h a = absurd (omega arith)
digits-IsNumber (suc f) n out h a = elim (Bool-cases (ltb n 10)) [
  | inl small ↦ rw small ((omega arith, let lt = ltb→lt n 10 small in omega arith), a)
  | inr big ↦
      let le = ltb_false→le n 10 big in
      rw big (
        digits-IsNumber f (n / 10) ((b'0' + n % 10) ∷ out) (omega arith)
          ((omega arith, omega arith), a))
]

magnitude-digits : (f n : ℕ) (out : Text) → n < f → magnitude 0 (digits f n out) ≡ magnitude n out
unfolding digits
magnitude-digits zero n out h = absurd (omega arith)
magnitude-digits (suc f) n out h = elim (Bool-cases (ltb n 10)) [
  | inl small ↦
      let lt = ltb→lt n 10 small in
      rw small (
        magnitude_digit 0 (b'0' + n) out (omega arith, omega arith)
        ∙ rw (let e : 0 * 10 + (b'0' + n - b'0') ≡ n = omega arith in e))
  | inr big ↦
      let le = ltb_false→le n 10 big in
      rw big (
        magnitude-digits f (n / 10) ((b'0' + n % 10) ∷ out) (omega arith)
        ∙ magnitude_digit (n / 10) (b'0' + n % 10) out (omega arith, omega arith)
        ∙ rw (digit_last n))
]

decimal-IsNumber : (n : ℕ) → IsNumber (decimal n)
unfolding decimal
decimal-IsNumber n = digits-IsNumber (suc n) n [] (omega arith) tt

magnitude-decimal : (n : ℕ) → magnitude 0 (decimal n) ≡ n
unfolding decimal
magnitude-decimal n = magnitude-digits (suc n) n [] (omega arith) ∙ unfold magnitude in refl

digits_of-IsNumber : (s : Text) → IsNumber s → digits_of s ≡ some (magnitude 0 s)
unfolding digits_of
digits_of-IsNumber [] h = absurd h
digits_of-IsNumber (c ∷ s) h = ground arith

digits_of-decimal : (n : ℕ) → digits_of (decimal n) ≡ some n
digits_of-decimal n = digits_of-IsNumber (decimal n) (decimal-IsNumber n) ∙ rw (magnitude-decimal n)

stoi-IsNumber : (s : Text) → IsNumber s → noexcept_stoi s ≡ to_positive (digits_of s)
unfolding noexcept_stoi
stoi-IsNumber [] h = absurd h
stoi-IsNumber (c ∷ s) h = ground arith

stoi_minus : (s : Text) → noexcept_stoi (b'-' ∷ s) ≡ to_negative (digits_of s)
unfolding noexcept_stoi
stoi_minus s = refl

-- Every int is read back from its decimal print.
pub noexcept_stoi-to_string : (z : ℤ) → IsInt z → noexcept_stoi (to_string z) ≡ some z
unfolding to_string to_positive to_negative
noexcept_stoi-to_string (pos n) h =
    stoi-IsNumber (decimal n) (decimal-IsNumber n) ∙ rw (digits_of-decimal n) (ground arith)
noexcept_stoi-to_string (negsuc n) h =
    stoi_minus (decimal (suc n)) ∙ rw (digits_of-decimal (suc n)) (ground arith)

-- The bytes of a printed int.
abbrev pub IsNumeral : ℕ → Type 0
IsNumeral c = c ≤ b'9'

numerals : (s : Text) → IsNumber s → All IsNumeral s
numerals [] h = absurd h
numerals (c ∷ s) (d, h) = (d.1, All-mono IsDigit IsNumeral (λ x p. p.1) s h)

pub to_string-numerals : (z : ℤ) → All IsNumeral (to_string z)
unfolding to_string
to_string-numerals (pos n) = numerals (decimal n) (decimal-IsNumber n)
to_string-numerals (negsuc n) = (omega arith, numerals (decimal (suc n)) (decimal-IsNumber (suc n)))

-- The first byte of a printed natural number is a digit.
pub decimal_head : (n : ℕ) → (c : ℕ) × (s : Text) × (to_string (pos n) ≡ c ∷ s) × IsDigit c
unfolding to_string
decimal_head n = head (decimal n) (decimal-IsNumber n)
  where
    head : (t : Text) → IsNumber t → (c : ℕ) × (s : Text) × (t ≡ c ∷ s) × IsDigit c
    head [] h = absurd h
    head (c ∷ s) (d, h) = (c, s, refl, d)

abbrev pub WithinInt : Option ℤ → Type 0
WithinInt none = Unit {0}
WithinInt (some z) = IsInt z

to_positive-WithinInt : (o : Option ℕ) → WithinInt (to_positive o)
unfolding to_positive
to_positive-WithinInt none = tt
to_positive-WithinInt (some n) = elim (Bool-cases (ltb n (2 ^ 31))) [
  | inl e ↦ rw e (ltb→lt n (2 ^ 31) e)
  | inr e ↦ rw e tt
]

neg-IsInt : (n : ℕ) → n ≤ 2 ^ 31 → IsInt (neg n)
neg-IsInt zero h = omega arith
neg-IsInt (suc n) h = omega arith

to_negative-WithinInt : (o : Option ℕ) → WithinInt (to_negative o)
unfolding to_negative
to_negative-WithinInt none = tt
to_negative-WithinInt (some n) = elim (Bool-cases (leb n (2 ^ 31))) [
  | inl e ↦ rw e (neg-IsInt n (leb→le n (2 ^ 31) e))
  | inr e ↦ rw e tt
]

-- What an accepted text gives is an int.
pub noexcept_stoi-WithinInt : (s : Text) → WithinInt (noexcept_stoi s)
unfolding noexcept_stoi
noexcept_stoi-WithinInt [] = tt
noexcept_stoi-WithinInt (c ∷ s) = elim (Bool-cases (is_space c)) [
  | inl e ↦ rw e (noexcept_stoi-WithinInt s)
  | inr e ↦ rw e (elim (Bool-cases (c == b'-')) [
    | inl m ↦ rw m (to_negative-WithinInt (digits_of s))
    | inr m ↦ rw m (elim (Bool-cases (c == b'+')) [
      | inl p ↦ rw p (to_positive-WithinInt (digits_of s))
      | inr p ↦ rw p (to_positive-WithinInt (digits_of (c ∷ s)))
    ])
  ])
]
