-- ===== src/Bencode/Decimal.antt =====
-- src/Bencoder/Bendecoders.cpp: noexcept_stoi; std::stoi and std::to_string in base ten.
use bittorrent_application_l.Base.{
  ℕ, zero, suc, ◌+◌, ◌-◌, ◌*◌, ◌/◌, ◌%◌, ◌^◌, ◌≤◌, ◌≡◌, Bool, true, ◌&&◌, ◌||◌, Option, none, some,
  [], ◌∷◌, arith, ltb, leb, ◌==◌, if◌then◌else◌, ℤ, pos, negsuc, neg,
}
use bittorrent_application_l.Bencode.{Text}

abbrev pub is_digit : ℕ → Bool
is_digit c = leb b'0' c && leb c b'9'

-- isspace in the C locale
abbrev pub is_space : ℕ → Bool
is_space c = c == 32 || (leb 9 c && leb c 13)

-- The magnitude that the leading digits spell behind `n`, with no bound.
unfoldable pub magnitude : ℕ → Text → ℕ
magnitude n [] = n
magnitude n (c ∷ s) = if is_digit c then magnitude (n * 10 + (c - b'0')) s else n

-- No digit: std::invalid_argument.
unfoldable pub digits_of : Text → Option ℕ
digits_of [] = none
digits_of (c ∷ s) = if is_digit c then some (magnitude 0 (c ∷ s)) else none

-- Past the range of an int: std::out_of_range.
unfoldable pub to_positive : Option ℕ → Option ℤ
to_positive none = none
to_positive (some n) = if ltb n (2 ^ 31) then some (pos n) else none

unfoldable pub to_negative : Option ℕ → Option ℤ
to_negative none = none
to_negative (some n) = if leb n (2 ^ 31) then some (neg n) else none

pub leb→le : (a b : ℕ) → leb a b ≡ true → a ≤ b
leb→le a b h = ground arith

-- White space, a sign, and digits up to the first other byte; `none` is an exception.
unfoldable pub noexcept_stoi : Text → Option ℤ
unfolding digits_of magnitude to_positive to_negative
noexcept_stoi [] = none
noexcept_stoi (c ∷ s) =
    if is_space c
    then noexcept_stoi s
    else if c == b'-'
    then to_negative (digits_of s)
    else if c == b'+'
    then to_positive (digits_of s)
    else to_positive (digits_of (c ∷ s))

-- The digits of `n` before `out`; a number below the fuel needs no more.
unfoldable pub digits : ℕ → ℕ → Text → Text
digits zero n out = out
digits (suc f) n out =
    let rest = digits f (n / 10) ((b'0' + n % 10) ∷ out) in
    if ltb n 10 then (b'0' + n) ∷ out else rest

unfoldable pub decimal : ℕ → Text
unfolding digits
decimal n = digits (suc n) n []

-- std::to_string(int)
unfoldable pub to_string : ℤ → Text
unfolding decimal
to_string (pos n) = decimal n
to_string (negsuc n) = b'-' ∷ decimal (suc n)
