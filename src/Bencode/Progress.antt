-- ===== src/Bencode/Progress.antt =====
-- Each piece of the decoders reads at least one byte, or fails.
use bittorrent_application_l.Base.{
  ℕ, ◌≤◌, ◌<◌, ◌≡◌, ◌≢◌, refl, inl, inr, Option, none, some, [], ◌∷◌, ◌++◌, arith, ◌==◌, Bool-cases,
  length, ℤ, pos_part,
}
use bittorrent_application_l.Bencode.{
  Text, Bendata, Value, lis, dic, Items, Fields, assign, get_encode, ben_lis_t, ben_dic_t,
}
use bittorrent_application_l.Bencode.Decimal.{noexcept_stoi}
use bittorrent_application_l.Bencode.Stream.{
  Stream, peek, read_delimeter, read_until, length-read_until, length-read_until_text,
  length-read_chars,
}
use bittorrent_application_l.Bencode.Decode.{
  dispatch, next_item, next_value, next_key, list_round, dict_round, done, failed, out_of_fuel,
  Decoded, string_of, bendecode_string, integer_of, bendecode_integer, kind, snoc, key_of, close,
}

-- A result that is not for want of fuel; a value leaves fewer than `n` bytes.
abbrev pub Ends : ℕ → Decoded → Type 0
Ends n (done (v, rest)) = length rest < n
Ends n failed = Unit {0}
Ends n out_of_fuel = ⊥

pub Ends-mono : (m n : ℕ) (r : Decoded) → m ≤ n → Ends m r → Ends n r
Ends-mono m n (done (v, rest)) h e = omega arith
Ends-mono m n failed h e = tt
Ends-mono m n out_of_fuel h e = e

string_of-Ends :
    (size : Text) (c : Option ℕ) (s : Stream) (o : Option ℤ) (n : ℕ)
    → length s < n
    → Ends n (string_of size c s o)
unfolding string_of
string_of-Ends size c s none n h = tt
string_of-Ends size c s (some z) n h = omega (arith, length-read_chars (pos_part z) c s)

-- No length that is a number: the decoder has failed.
string_of_nothing :
    (c : Option ℕ) (s : Stream) (n : ℕ) → Ends n (string_of [] c s (noexcept_stoi []))
unfolding string_of noexcept_stoi
string_of_nothing c s n = tt

pub bendecode_string-Ends : (s : Stream) → Ends (length s) (bendecode_string s)
unfolding bendecode_string
bendecode_string-Ends s =
    split (read_until b':' none s).0 (read_until b':' none s).1 (read_until b':' none s).2
      (length-read_until_text b':' none s)
  where
    split :
        (size : Text) (c : Option ℕ) (rest : Stream)
        → (size ≢ [] → length rest < length s)
        → Ends (length s) (string_of size c rest (noexcept_stoi size))
    split [] c rest h = string_of_nothing c rest (length s)
    split (d ∷ size) c rest h =
        string_of-Ends (d ∷ size) c rest (noexcept_stoi (d ∷ size)) (length s) (h (cc))

integer_of-Ends : (s : Stream) (o : Option ℤ) (n : ℕ) → length s < n → Ends n (integer_of s o)
unfolding integer_of
integer_of-Ends s none n h = tt
integer_of-Ends s (some z) n h = h

bendecode_integer-Ends : (c : ℕ) (s : Stream) → Ends (length (c ∷ s)) (bendecode_integer (c ∷ s))
unfolding bendecode_integer read_delimeter
bendecode_integer-Ends c s =
    integer_of-Ends (read_until b'e' none s).2 (noexcept_stoi (read_until b'e' none s).0)
      (length (c ∷ s)) (omega (arith, length-read_until b'e' none s))

close-Ends :
    (v : Value) (text : Text) (t c : ℕ) (s : Stream)
    → Ends (length (c ∷ s)) (close v text t (c ∷ s))
unfolding close read_delimeter
close-Ends v text t c s = omega arith

next_item-Ends :
    (loop : Stream → Items → Text → Decoded) (items : Items) (text : Text) (r : Decoded) (n : ℕ)
    → ((s : Stream) (xs : Items) (t : Text) → length s < n → Ends (length s) (loop s xs t))
    → Ends n r
    → Ends n (next_item loop items text r)
unfolding next_item
next_item-Ends loop items text (done (v, s)) n k h =
    Ends-mono (length s) n (loop s (snoc items v) (text ++ get_encode v)) (omega arith) (k s _ _ h)
next_item-Ends loop items text failed n k h = tt
next_item-Ends loop items text out_of_fuel n k h = h

next_value-Ends :
    (loop : Stream → Fields → Text → Decoded) (key : Bendata) (fs : Fields) (text : Text)
    (r : Decoded) (n : ℕ)
    → ((s : Stream) (gs : Fields) (t : Text) → length s < n → Ends (length s) (loop s gs t))
    → Ends n r
    → Ends n (next_value loop key fs text r)
unfolding next_value
next_value-Ends loop key fs text (done (v, s)) n k h =
    Ends-mono (length s) n
      (loop s (assign (key_of key) v fs) (text ++ (get_encode key ++ get_encode v))) (omega arith)
      (k s _ _ h)
next_value-Ends loop key fs text failed n k h = tt
next_value-Ends loop key fs text out_of_fuel n k h = h

next_key-Ends :
    (get : Stream → Decoded) (loop : Stream → Fields → Text → Decoded) (fs : Fields) (text : Text)
    (r : Decoded) (n : ℕ)
    → ((s : Stream) → length s < n → Ends (length s) (get s))
    → ((s : Stream) (gs : Fields) (t : Text) → length s < n → Ends (length s) (loop s gs t))
    → Ends n r
    → Ends n (next_key get loop fs text r)
unfolding next_key
next_key-Ends get loop fs text (done (key, s)) n g k h =
    next_value-Ends loop key fs text (get s) n k
      (Ends-mono (length s) n (get s) (omega arith) (g s h))
next_key-Ends get loop fs text failed n g k h = tt
next_key-Ends get loop fs text out_of_fuel n g k h = h

pub list_round-Ends :
    (get : Stream → Decoded) (loop : Stream → Items → Text → Decoded) (items : Items) (text : Text)
    (s : Stream)
    → Ends (length s) (get s)
    → ((r : Stream) (xs : Items) (t : Text) → length r < length s → Ends (length r) (loop r xs t))
    → Ends (length s) (list_round get loop items text (peek s) s)
unfolding list_round
list_round-Ends get loop items text [] g k = next_item-Ends loop items text (get []) 0 k g
list_round-Ends get loop items text (c ∷ s) g k = elim (Bool-cases (c == b'e')) [
  | inl e ↦ rw e (close-Ends (lis items) text ben_lis_t c s)
  | inr e ↦ rw e (next_item-Ends loop items text (get (c ∷ s)) (length (c ∷ s)) k g)
]

pub dict_round-Ends :
    (get : Stream → Decoded) (loop : Stream → Fields → Text → Decoded) (fs : Fields) (text : Text)
    (s : Stream)
    → ((r : Stream) → length r < length s → Ends (length r) (get r))
    → ((r : Stream) (gs : Fields) (t : Text) → length r < length s → Ends (length r) (loop r gs t))
    → Ends (length s) (dict_round get loop fs text (peek s) s)
unfolding dict_round
dict_round-Ends get loop fs text [] g k =
    next_key-Ends get loop fs text (bendecode_string []) 0 g k (bendecode_string-Ends [])
dict_round-Ends get loop fs text (c ∷ s) g k = elim (Bool-cases (c == b'e')) [
  | inl e ↦ rw e (close-Ends (dic fs) text ben_dic_t c s)
  | inr e ↦ rw e (
      next_key-Ends get loop fs text (bendecode_string (c ∷ s)) (length (c ∷ s)) g k
        (bendecode_string-Ends (c ∷ s)))
]

pub dispatch-Ends :
    (dict lst : Stream → Decoded) (s : Stream)
    → ((c : ℕ) (r : Stream) → s ≡ c ∷ r → Ends (length s) (dict s))
    → ((c : ℕ) (r : Stream) → s ≡ c ∷ r → Ends (length s) (lst s))
    → Ends (length s) (dispatch dict lst (kind (peek s)) s)
unfolding dispatch
dispatch-Ends dict lst [] d l = bendecode_string-Ends []
dispatch-Ends dict lst (c ∷ s) d l = elim (Bool-cases (c == b'i')) [
  | inl e ↦ rw e (bendecode_integer-Ends c s)
  | inr e ↦ rw e (elim (Bool-cases (c == b'd')) [
    | inl g ↦ rw g (d c s refl)
    | inr g ↦ rw g (elim (Bool-cases (c == b'l')) [
      | inl h ↦ rw h (l c s refl)
      | inr h ↦ rw h (bendecode_string-Ends (c ∷ s))
    ])
  ])
]
