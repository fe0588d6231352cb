-- ===== src/Bencode/Decode.antt =====
-- src/Bencoder/Bendecoders.cpp: the decoders. Each returns its value and the stream that it leaves.
use bittorrent_application_l.Base.{
  ℕ, zero, suc, ◌+◌, ◌*◌, Bool, false, Option, none, some, [], ◌∷◌, ◌++◌, ◌==◌, if◌then◌else◌, ℤ,
  pos_part, length,
}
use bittorrent_application_l.Bencode.{
  Text, BendataInitFlag, integer, string, dictionary, list, Bendata, bendata, Value, lis, dic,
  Items, nil, cons, Fields, end, str_of, actual_value, get_encode, of_int, of_string, assign,
  ben_num_t, ben_lis_t, ben_dic_t, ben_delimeter,
}
use bittorrent_application_l.Bencode.Decimal.{noexcept_stoi, to_string}
use bittorrent_application_l.Bencode.Stream.{
  Stream, peek_skipws, read_delimeter, read_until, read_chars, chars,
}

-- `failed` is a decoder that returned false; `out_of_fuel` bounds the model's recursion only.
pub data Result (A : Type 0) : Type 0 where
  done : A → Result A
  failed : Result A
  out_of_fuel : Result A

abbrev pub Decoded : Type 0
Decoded = Result (Bendata × Stream)

-- `data.bencode = …`
abbrev set_bencode : Bendata → Text → Bendata
set_bencode (bendata v b t) text = bendata v text t

unfoldable pub string_of : Text → Option ℕ → Stream → Option ℤ → Decoded
string_of size c s none = failed
string_of size c s (some n) =
    let (result, rest) = read_chars (pos_part n) c s in
    done (set_bencode (of_string result) (size ++ (b':' ∷ result)), rest)

unfoldable pub bendecode_string : Stream → Decoded
unfolding string_of
bendecode_string s =
    let (size, c, rest) = read_until b':' none s in string_of size c rest (noexcept_stoi size)

unfoldable pub integer_of : Stream → Option ℤ → Decoded
integer_of s none = failed
integer_of s (some value) =
    done (set_bencode (of_int value) (ben_num_t ∷ (to_string value ++ (ben_delimeter ∷ []))), s)

unfoldable pub bendecode_integer : Stream → Decoded
unfolding integer_of
bendecode_integer s =
    let (i, started) = read_delimeter s in
    let (number, c, rest) = read_until ben_delimeter none started in
    integer_of rest (noexcept_stoi number)

abbrev pub get_benkey_from_stream : Stream → Decoded
get_benkey_from_stream = bendecode_string

-- The cases of the switch.
abbrev pub kind : Option ℕ → BendataInitFlag
kind none = string
kind (some c) =
    if c == ben_num_t
    then integer
    else if c == ben_dic_t
    then dictionary
    else if c == ben_lis_t
    then list
    else string

abbrev pub at_delimeter : Option ℕ → Bool
at_delimeter none = false
at_delimeter (some c) = c == ben_delimeter

-- push_back
abbrev pub snoc : Items → Bendata → Items
snoc nil v = cons v nil
snoc (cons x xs) v = cons x (snoc xs v)

-- `new_key.get_data<std::string>()`, of a key that bendecode_string made.
abbrev key_text : Option Text → Text
key_text none = []
key_text (some k) = k

abbrev pub key_of : Bendata → Text
key_of key = key_text (str_of (actual_value key))

-- The last read of a list's or a dictionary's loop.
unfoldable pub close : Value → Text → ℕ → Stream → Decoded
close v text t s = let (d, rest) = read_delimeter s in done (bendata v (text ++ chars d) t, rest)

-- The switch of get_bendata_from_stream.
unfoldable pub dispatch :
    (Stream → Decoded) → (Stream → Decoded) → BendataInitFlag → Stream → Decoded
dispatch dict lst integer s = bendecode_integer s
dispatch dict lst dictionary s = dict s
dispatch dict lst list s = lst s
dispatch dict lst string s = bendecode_string s

-- A round of the list's loop after its value was read: `loop` is the loop's next round.
unfoldable pub next_item : (Stream → Items → Text → Decoded) → Items → Text → Decoded → Decoded
next_item loop ref_list text (done (new_data, s)) =
    loop s (snoc ref_list new_data) (text ++ get_encode new_data)
next_item loop ref_list text failed = failed
next_item loop ref_list text out_of_fuel = out_of_fuel

unfoldable pub list_round :
    (Stream → Decoded)
    → (Stream → Items → Text → Decoded)
    → Items
    → Text
    → Option ℕ
    → Stream
    → Decoded
unfolding next_item close
list_round get loop ref_list text c s =
    if at_delimeter c
    then close (lis ref_list) text ben_lis_t s
    else next_item loop ref_list text (get s)

-- A round of the dictionary's loop after its value, and after its key.
unfoldable pub next_value :
    (Stream → Fields → Text → Decoded) → Bendata → Fields → Text → Decoded → Decoded
next_value loop new_key ref_dic text (done (new_data, s)) =
    loop s (assign (key_of new_key) new_data ref_dic)
      (text ++ (get_encode new_key ++ get_encode new_data))
next_value loop new_key ref_dic text failed = failed
next_value loop new_key ref_dic text out_of_fuel = out_of_fuel

unfoldable pub next_key :
    (Stream → Decoded) → (Stream → Fields → Text → Decoded) → Fields → Text → Decoded → Decoded
unfolding next_value
next_key get loop ref_dic text (done (new_key, s)) = next_value loop new_key ref_dic text (get s)
next_key get loop ref_dic text failed = failed
next_key get loop ref_dic text out_of_fuel = out_of_fuel

unfoldable pub dict_round :
    (Stream → Decoded)
    → (Stream → Fields → Text → Decoded)
    → Fields
    → Text
    → Option ℕ
    → Stream
    → Decoded
unfolding next_key close
dict_round get loop ref_dic text c s =
    if at_delimeter c
    then close (dic ref_dic) text ben_dic_t s
    else next_key get loop ref_dic text (get_benkey_from_stream s)

unfoldable mutual
  unfolding dispatch list_round dict_round

  pub get_bendata_from_stream : ℕ → Stream → Decoded
  get_bendata_from_stream zero s = out_of_fuel
  get_bendata_from_stream (suc f) s =
      dispatch (bendecode_dictionary f) (bendecode_list f) (kind (peek_skipws s).0)
        (peek_skipws s).1

  pub bendecode_list : ℕ → Stream → Decoded
  bendecode_list zero s = out_of_fuel
  bendecode_list (suc f) s = list_loop f (read_delimeter s).1 nil (chars (read_delimeter s).0)

  -- `while (peek_skipws(of) != BEN_DELIMETER)`
  pub list_loop : ℕ → Stream → Items → Text → Decoded
  list_loop zero s ref_list text = out_of_fuel
  list_loop (suc f) s ref_list text =
      list_round (get_bendata_from_stream f) (list_loop f) ref_list text (peek_skipws s).0
        (peek_skipws s).1

  pub bendecode_dictionary : ℕ → Stream → Decoded
  bendecode_dictionary zero s = out_of_fuel
  bendecode_dictionary (suc f) s = dict_loop f (read_delimeter s).1 end (chars (read_delimeter s).0)

  pub dict_loop : ℕ → Stream → Fields → Text → Decoded
  dict_loop zero s ref_dic text = out_of_fuel
  dict_loop (suc f) s ref_dic text =
      dict_round (get_bendata_from_stream f) (dict_loop f) ref_dic text (peek_skipws s).0
        (peek_skipws s).1

-- A result other than `done` throws Invalid_Bencode_File.
unfoldable pub bendecode_from_file : Stream → Decoded
bendecode_from_file file = get_bendata_from_stream (3 * length file + 3) file
