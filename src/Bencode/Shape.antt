-- ===== src/Bencode/Shape.antt =====
-- What a decoded value is like, for any input: tags, ranges and keys.
use bittorrent_application_l.Base.{
  ℕ, zero, suc, ◌≡◌, refl, inl, inr, Option, none, some, Bool-cases, ℤ, IsInt,
}
use bittorrent_application_l.Bencode.{
  Text, BendataInitFlag, integer, string, dictionary, list, Bendata, bendata, num, str, lis, dic,
  Items, nil, cons, Fields, end, field, text_ltb, assign, ben_num_t, ben_str_t, ben_lis_t,
  ben_dic_t,
}
use bittorrent_application_l.Bencode.Digits.{noexcept_stoi-WithinInt, WithinInt}
use bittorrent_application_l.Bencode.Stream.{Stream, peek_skipws}
use bittorrent_application_l.Bencode.Encode.{IsSorted}
use bittorrent_application_l.Bencode.Order.{assign-IsSorted}
use bittorrent_application_l.Bencode.Decode.{
  done, failed, out_of_fuel, Decoded, kind, at_delimeter, dispatch, next_item, next_value, next_key,
  list_round, dict_round, string_of, bendecode_string, integer_of, bendecode_integer, snoc, key_of,
  close, get_bendata_from_stream, bendecode_list, list_loop, bendecode_dictionary, dict_loop,
}

-- A value all of whose tags name its alternatives, whose numbers are ints and whose keys are in
-- order and different.
abbrev mutual
  pub IsTagged : Bendata → Type 0
  IsTagged (bendata (num z) text t) = IsInt z × (t ≡ ben_num_t)
  IsTagged (bendata (str s) text t) = t ≡ ben_str_t
  IsTagged (bendata (lis xs) text t) = AreTagged xs × (t ≡ ben_lis_t)
  IsTagged (bendata (dic fs) text t) = AreTaggedFields fs × IsSorted fs × (t ≡ ben_dic_t)

  pub AreTagged : Items → Type 0
  AreTagged nil = Unit {0}
  AreTagged (cons v xs) = IsTagged v × AreTagged xs

  pub AreTaggedFields : Fields → Type 0
  AreTaggedFields end = Unit {0}
  AreTaggedFields (field k v fs) = IsTagged v × AreTaggedFields fs

-- So for a value that was decoded.
abbrev pub GivesTagged : Decoded → Type 0
GivesTagged (done (v, rest)) = IsTagged v
GivesTagged failed = Unit {0}
GivesTagged out_of_fuel = Unit {0}

snoc-AreTagged : (xs : Items) (v : Bendata) → AreTagged xs → IsTagged v → AreTagged (snoc xs v)
snoc-AreTagged nil v h k = (k, tt)
snoc-AreTagged (cons x xs) v (p, h) k = (p, snoc-AreTagged xs v h k)

assign-AreTagged :
    (k : Text) (v : Bendata) (fs : Fields)
    → AreTaggedFields fs
    → IsTagged v
    → AreTaggedFields (assign k v fs)
unfolding assign
assign-AreTagged k v end h t = (t, tt)
assign-AreTagged k v (field j w fs) (p, h) t = elim (Bool-cases (text_ltb k j)) [
  | inl e ↦ rw e (t, (p, h))
  | inr e ↦ rw e (elim (Bool-cases (text_ltb j k)) [
    | inl g ↦ rw g (p, assign-AreTagged k v fs h t)
    | inr g ↦ rw g (t, h)
  ])
]

string_of-GivesTagged :
    (size : Text) (c : Option ℕ) (s : Stream) (o : Option ℤ) → GivesTagged (string_of size c s o)
unfolding string_of
string_of-GivesTagged size c s none = tt
string_of-GivesTagged size c s (some z) = refl

bendecode_string-GivesTagged : (s : Stream) → GivesTagged (bendecode_string s)
unfolding bendecode_string
bendecode_string-GivesTagged s = string_of-GivesTagged _ _ _ _

integer_of-GivesTagged : (s : Stream) (o : Option ℤ) → WithinInt o → GivesTagged (integer_of s o)
unfolding integer_of
integer_of-GivesTagged s none h = tt
integer_of-GivesTagged s (some z) h = (h, refl)

bendecode_integer-GivesTagged : (s : Stream) → GivesTagged (bendecode_integer s)
unfolding bendecode_integer
bendecode_integer-GivesTagged s = integer_of-GivesTagged _ _ (noexcept_stoi-WithinInt _)

next_item-GivesTagged :
    (loop : Stream → Items → Text → Decoded) (items : Items) (text : Text) (r : Decoded)
    → ((s : Stream) (xs : Items) (t : Text) → AreTagged xs → GivesTagged (loop s xs t))
    → AreTagged items
    → GivesTagged r
    → GivesTagged (next_item loop items text r)
unfolding next_item
next_item-GivesTagged loop items text (done (v, s)) k h t = k s _ _ (snoc-AreTagged items v h t)
next_item-GivesTagged loop items text failed k h t = tt
next_item-GivesTagged loop items text out_of_fuel k h t = tt

-- A map under construction.
abbrev IsMap : Fields → Type 0
IsMap fs = AreTaggedFields fs × IsSorted fs

next_value-GivesTagged :
    (loop : Stream → Fields → Text → Decoded) (key : Bendata) (fs : Fields) (text : Text)
    (r : Decoded)
    → ((s : Stream) (gs : Fields) (t : Text) → IsMap gs → GivesTagged (loop s gs t))
    → IsMap fs
    → GivesTagged r
    → GivesTagged (next_value loop key fs text r)
unfolding next_value
next_value-GivesTagged loop key fs text (done (v, s)) k (h, o) t =
    k s _ _ (assign-AreTagged (key_of key) v fs h t, assign-IsSorted (key_of key) v fs o)
next_value-GivesTagged loop key fs text failed k h t = tt
next_value-GivesTagged loop key fs text out_of_fuel k h t = tt

next_key-GivesTagged :
    (get : Stream → Decoded) (loop : Stream → Fields → Text → Decoded) (fs : Fields) (text : Text)
    (r : Decoded)
    → ((s : Stream) → GivesTagged (get s))
    → ((s : Stream) (gs : Fields) (t : Text) → IsMap gs → GivesTagged (loop s gs t))
    → IsMap fs
    → GivesTagged (next_key get loop fs text r)
unfolding next_key
next_key-GivesTagged get loop fs text (done (key, s)) g k h =
    next_value-GivesTagged loop key fs text (get s) k h (g s)
next_key-GivesTagged get loop fs text failed g k h = tt
next_key-GivesTagged get loop fs text out_of_fuel g k h = tt

list_round-GivesTagged :
    (get : Stream → Decoded) (loop : Stream → Items → Text → Decoded) (items : Items) (text : Text)
    (c : Option ℕ) (s : Stream)
    → GivesTagged (get s)
    → ((r : Stream) (xs : Items) (t : Text) → AreTagged xs → GivesTagged (loop r xs t))
    → AreTagged items
    → GivesTagged (list_round get loop items text c s)
unfolding list_round close
list_round-GivesTagged get loop items text c s g k h = elim (Bool-cases (at_delimeter c)) [
  | inl e ↦ rw e (h, refl)
  | inr e ↦ rw e (next_item-GivesTagged loop items text (get s) k h g)
]

dict_round-GivesTagged :
    (get : Stream → Decoded) (loop : Stream → Fields → Text → Decoded) (fs : Fields) (text : Text)
    (c : Option ℕ) (s : Stream)
    → ((r : Stream) → GivesTagged (get r))
    → ((r : Stream) (gs : Fields) (t : Text) → IsMap gs → GivesTagged (loop r gs t))
    → IsMap fs
    → GivesTagged (dict_round get loop fs text c s)
unfolding dict_round close
dict_round-GivesTagged get loop fs text c s g k (h, o) = elim (Bool-cases (at_delimeter c)) [
  | inl e ↦ rw e (h, o, refl)
  | inr e ↦ rw e (next_key-GivesTagged get loop fs text (bendecode_string s) g k (h, o))
]

dispatch-GivesTagged :
    (dict lst : Stream → Decoded) (k : BendataInitFlag) (s : Stream)
    → GivesTagged (dict s)
    → GivesTagged (lst s)
    → GivesTagged (dispatch dict lst k s)
unfolding dispatch
dispatch-GivesTagged dict lst integer s d l = bendecode_integer-GivesTagged s
dispatch-GivesTagged dict lst dictionary s d l = d
dispatch-GivesTagged dict lst list s d l = l
dispatch-GivesTagged dict lst string s d l = bendecode_string-GivesTagged s

mutual
  unfolding get_bendata_from_stream

  pub get-GivesTagged : (f : ℕ) (s : Stream) → GivesTagged (get_bendata_from_stream f s)
  get-GivesTagged zero s = tt
  get-GivesTagged (suc f) s =
      dispatch-GivesTagged (bendecode_dictionary f) (bendecode_list f) (kind (peek_skipws s).0)
        (peek_skipws s).1 (dictionary-GivesTagged f _) (list-GivesTagged f _)

  list-GivesTagged : (f : ℕ) (s : Stream) → GivesTagged (bendecode_list f s)
  list-GivesTagged zero s = tt
  list-GivesTagged (suc f) s = list_loop-GivesTagged f _ nil _ tt

  list_loop-GivesTagged :
      (f : ℕ) (s : Stream) (xs : Items) (t : Text) → AreTagged xs → GivesTagged (list_loop f s xs t)
  list_loop-GivesTagged zero s xs t h = tt
  list_loop-GivesTagged (suc f) s xs t h =
      list_round-GivesTagged (get_bendata_from_stream f) (list_loop f) xs t (peek_skipws s).0
        (peek_skipws s).1 (get-GivesTagged f _) (λ r ys u k. list_loop-GivesTagged f r ys u k) h

  dictionary-GivesTagged : (f : ℕ) (s : Stream) → GivesTagged (bendecode_dictionary f s)
  dictionary-GivesTagged zero s = tt
  dictionary-GivesTagged (suc f) s = dict_loop-GivesTagged f _ end _ (tt, tt)

  dict_loop-GivesTagged :
      (f : ℕ) (s : Stream) (fs : Fields) (t : Text) → IsMap fs → GivesTagged (dict_loop f s fs t)
  dict_loop-GivesTagged zero s fs t h = tt
  dict_loop-GivesTagged (suc f) s fs t h =
      dict_round-GivesTagged (get_bendata_from_stream f) (dict_loop f) fs t (peek_skipws s).0
        (peek_skipws s).1 (λ r. get-GivesTagged f r) (λ r gs u k. dict_loop-GivesTagged f r gs u k)
        h
