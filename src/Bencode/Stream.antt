-- ===== src/Bencode/Stream.antt =====
-- src/Bencoder/Bendecoders.cpp: the reads of a std::istream that skips no white space.
-- The stream is the list of the bytes that are left. A read past its end leaves the variable that it
-- should have written as it was.
use bittorrent_application_l.Base.{
  ℕ, zero, suc, ◌≤◌, ◌<◌, ◌≡◌, refl, ◌≢◌, Option, none, some, List, [], ◌∷◌, ◌++◌, arith, ◌==◌,
  if◌then◌else◌, length, ==-false, true, false,
}
use bittorrent_application_l.Bencode.{Text}
use bittorrent_application_l.Bencode.Decimal.{is_space}
use bittorrent_application_l.Bencode.Digits.{All}

abbrev pub Stream : Type 0
Stream = List ℕ

-- of.peek(); `none` is EOF.
abbrev pub peek : Stream → Option ℕ
peek [] = none
peek (c ∷ s) = some c

-- peek_skipws, by the stream that it leaves.
unfoldable pub skip_spaces : Stream → Stream
skip_spaces [] = []
skip_spaces (c ∷ s) = if is_space c then skip_spaces s else c ∷ s

unfoldable pub peek_skipws : Stream → Option ℕ × Stream
unfolding skip_spaces
peek_skipws s = (peek (skip_spaces s), skip_spaces s)

-- read_delimeter: `none` is a variable that was never written.
unfoldable pub read_delimeter : Stream → Option ℕ × Stream
read_delimeter [] = (none, [])
read_delimeter (c ∷ s) = (some c, s)

-- `text += c`, where a variable that was never written adds nothing that is known.
abbrev pub chars : Option ℕ → Text
chars none = []
chars (some c) = c ∷ []

-- `while (of >> c && c != stop) text += c`: the text, the last value of `c`, and the stream.
unfoldable pub read_until : ℕ → Option ℕ → Stream → Text × Option ℕ × Stream
read_until stop c [] = ([], c, [])
read_until stop c (d ∷ s) =
    let (text, last, rest) = read_until stop (some d) s in
    if d == stop then ([], some d, s) else (d ∷ text, last, rest)

-- `while (size-- > 0) { of >> c; result += c; }`
unfoldable pub read_chars : ℕ → Option ℕ → Stream → Text × Stream
read_chars zero c s = ([], s)
read_chars (suc n) c [] = let (text, rest) = read_chars n c [] in (chars c ++ text, rest)
read_chars (suc n) c (d ∷ s) = let (text, rest) = read_chars n (some d) s in (d ∷ text, rest)

pub length-skip_spaces : (s : Stream) → length (skip_spaces s) ≤ length s
unfolding skip_spaces
length-skip_spaces [] = omega arith
length-skip_spaces (c ∷ s) = ground (arith, length-skip_spaces s)

pub skip_spaces_none : (c : ℕ) (s : Stream) → is_space c ≡ false → skip_spaces (c ∷ s) ≡ c ∷ s
unfolding skip_spaces
skip_spaces_none c s h = rw h

pub length-read_until :
    (stop : ℕ) (c : Option ℕ) (s : Stream) → length (read_until stop c s).2 ≤ length s
unfolding read_until
length-read_until stop c [] = omega arith
length-read_until stop c (d ∷ s) = ground (arith, length-read_until stop (some d) s)

-- A text that is read to its end was there.
pub length-read_until_text :
    (stop : ℕ) (c : Option ℕ) (s : Stream)
    → (read_until stop c s).0 ≢ []
    → length (read_until stop c s).2 < length s
unfolding read_until
length-read_until_text stop c [] h = absurd (h refl)
length-read_until_text stop c (d ∷ s) h = ground (arith, length-read_until stop (some d) s)

pub length-read_chars : (n : ℕ) (c : Option ℕ) (s : Stream) → length (read_chars n c s).1 ≤ length s
unfolding read_chars
length-read_chars zero c s = omega arith
length-read_chars (suc n) c [] = length-read_chars n c []
length-read_chars (suc n) c (d ∷ s) = omega (arith, length-read_chars n (some d) s)

-- Up to a stop that the text does not hold.
pub read_until-append :
    (stop : ℕ) (c : Option ℕ) (text : Text) (s : Stream)
    → All (λ d. d ≢ stop) text
    → read_until stop c (text ++ (stop ∷ s)) ≡ (text, some stop, s)
unfolding read_until
read_until-append stop c [] s h = rw (let e : (stop == stop) ≡ true = ground arith in e)
read_until-append stop c (d ∷ text) s (n, h) =
    rw (==-false d stop n, read_until-append stop (some d) text s h)

pub read_chars-append :
    (text : Text) (c : Option ℕ) (s : Stream) → read_chars (length text) c (text ++ s) ≡ (text, s)
unfolding read_chars
read_chars-append [] c s = refl
read_chars-append (d ∷ text) c s = rw (read_chars-append text (some d) s)
