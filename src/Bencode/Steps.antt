-- ===== src/Bencode/Steps.antt =====
-- One round of a loop, and the first round of a value, on what an encoder wrote.
use bittorrent_application_l.Base.{
  ℕ, suc, ◌^◌, ◌≤◌, ◌<◌, ◌≡◌, refl, ap, ◌∙◌, some, [], ◌∷◌, ◌++◌, append_assoc, arith, length,
  length-append, ==-false, ℤ, IsInt,
}
use bittorrent_application_l.Bencode.{
  Text, Bendata, bendata, num, str, lis, dic, Items, nil, cons, Fields, end, get_encode, assign,
  ben_num_t, ben_str_t, ben_lis_t, ben_dic_t,
}
use bittorrent_application_l.Bencode.Decimal.{to_string}
use bittorrent_application_l.Bencode.Digits.{decimal_head, IsDigit}
use bittorrent_application_l.Bencode.Stream.{Stream, skip_spaces, peek_skipws, read_delimeter}
use bittorrent_application_l.Bencode.Encode.{encode_int, encode}
use bittorrent_application_l.Bencode.Decode.{
  done, kind, dispatch, next_item, next_value, next_key, list_round, dict_round, bendecode_string,
  snoc, close, get_bendata_from_stream, bendecode_list, list_loop, bendecode_dictionary, dict_loop,
}
use bittorrent_application_l.Bencode.Encoded.{
  Starts, encode-Starts, skip_spaces-Starts, bendecode_string-encode, bendecode_integer-encode,
}

abbrev pub append_items : Items → Items → Items
append_items nil ys = ys
append_items (cons x xs) ys = cons x (append_items xs ys)

pub append_items-snoc :
    (xs : Items) (v : Bendata) (ys : Items)
    → append_items (snoc xs v) ys ≡ append_items xs (cons v ys)
append_items-snoc nil v ys = refl
append_items-snoc (cons x xs) v ys = ap (cons x) (append_items-snoc xs v ys)

pub append_items-nil : (xs : Items) → append_items xs nil ≡ xs
append_items-nil nil = refl
append_items-nil (cons x xs) = ap (cons x) (append_items-nil xs)

get_Starts :
    (f : ℕ) (c : ℕ) (s : Text)
    → Starts (c ∷ s)
    → get_bendata_from_stream (suc f) (c ∷ s)
      ≡ dispatch (bendecode_dictionary f) (bendecode_list f) (kind (some c)) (c ∷ s)
unfolding get_bendata_from_stream peek_skipws
get_Starts f c s h = rw (skip_spaces-Starts (c ∷ s) h)

pub list_loop_step :
    (f : ℕ) (s rest : Text) (v : Bendata) (acc : Items) (t : Text)
    → Starts s
    → get_bendata_from_stream f s ≡ done (v, rest)
    → list_loop (suc f) s acc t ≡ list_loop f rest (snoc acc v) (t ++ get_encode v)
unfolding get_bendata_from_stream peek_skipws list_round next_item
list_loop_step f [] rest v acc t h e = absurd h
list_loop_step f (c ∷ s) rest v acc t h e =
    rw (skip_spaces-Starts (c ∷ s) h) (rw (==-false c b'e' h.1, e))

pub list_loop_end :
    (f : ℕ) (rest : Text) (acc : Items) (t : Text)
    → list_loop (suc f) (b'e' ∷ rest) acc t
      ≡ done (bendata (lis acc) (t ++ (b'e' ∷ [])) ben_lis_t, rest)
unfolding get_bendata_from_stream peek_skipws skip_spaces list_round close read_delimeter
list_loop_end f rest acc t = refl

pub dict_loop_step :
    (f : ℕ) (k : Text) (s rest : Text) (v : Bendata) (acc : Fields) (t : Text)
    → length k < 2 ^ 31
    → get_bendata_from_stream f s ≡ done (v, rest)
    → dict_loop (suc f) (encode k ++ s) acc t
      ≡ dict_loop f rest (assign k v acc) (t ++ (encode k ++ get_encode v))
unfolding get_bendata_from_stream peek_skipws dict_round next_key next_value
dict_loop_step f k s rest v acc t l e =
    split (encode k ++ s) (encode-Starts k s) (bendecode_string-encode k s l)
  where
    split :
        (u : Text)
        → Starts u
        → bendecode_string u ≡ done (bendata (str k) (encode k) ben_str_t, s)
        → dict_loop (suc f) u acc t
          ≡ dict_loop f rest (assign k v acc) (t ++ (encode k ++ get_encode v))
    split [] h b = absurd h
    split (c ∷ u) h b = rw (skip_spaces-Starts (c ∷ u) h) (rw (==-false c b'e' h.1, b, e))

pub dict_loop_end :
    (f : ℕ) (rest : Text) (acc : Fields) (t : Text)
    → dict_loop (suc f) (b'e' ∷ rest) acc t
      ≡ done (bendata (dic acc) (t ++ (b'e' ∷ [])) ben_dic_t, rest)
unfolding get_bendata_from_stream peek_skipws skip_spaces dict_round close read_delimeter
dict_loop_end f rest acc t = refl

-- A digit makes the switch read a string.
abbrev HasDigit : Text → Type 0
HasDigit [] = ⊥
HasDigit (c ∷ s) = IsDigit c

encode-HasDigit : (s t : Text) → HasDigit (encode s ++ t)
unfolding encode
encode-HasDigit s t = let (c, r, e, d) = decimal_head (length s) in rw e d

get-HasDigit :
    (f : ℕ) (u : Text) → HasDigit u → get_bendata_from_stream (suc f) u ≡ bendecode_string u
unfolding get_bendata_from_stream dispatch peek_skipws skip_spaces
get-HasDigit f [] h = absurd h
get-HasDigit f (c ∷ u) h = ground arith

pub get-encode :
    (f : ℕ) (s : Text) (rest : Stream)
    → length s < 2 ^ 31
    → get_bendata_from_stream (suc f) (encode s ++ rest)
      ≡ done (bendata (str s) (encode s) ben_str_t, rest)
get-encode f s rest h =
    get-HasDigit f (encode s ++ rest) (encode-HasDigit s rest) ∙ bendecode_string-encode s rest h

pub get-encode_int :
    (f : ℕ) (z : ℤ) (rest : Stream)
    → IsInt z
    → get_bendata_from_stream (suc f) (encode_int z ++ rest)
      ≡ done (bendata (num z) (encode_int z) ben_num_t, rest)
unfolding encode_int dispatch
get-encode_int f z rest h =
    get_Starts f b'i' ((to_string z ++ (b'e' ∷ [])) ++ rest) (refl, λ q. omega arith)
    ∙ bendecode_integer-encode z rest h

pub loop_text : (t u w : Text) → (t ++ u) ++ (w ++ (b'e' ∷ [])) ≡ t ++ ((u ++ w) ++ (b'e' ∷ []))
loop_text t u w = simp (append_assoc)

pub Starts-pos : (u : Text) → Starts (u ++ []) → 1 ≤ length u
Starts-pos [] h = absurd h
Starts-pos (c ∷ u) h = omega arith

-- A list's and a dictionary's first byte, behind which their loops run.
pub get_list :
    (f : ℕ) (s : Stream)
    → get_bendata_from_stream (suc (suc f)) (ben_lis_t ∷ s) ≡ list_loop f s nil (ben_lis_t ∷ [])
unfolding get_bendata_from_stream dispatch peek_skipws skip_spaces read_delimeter
get_list f s = refl

pub get_dictionary :
    (f : ℕ) (s : Stream)
    → get_bendata_from_stream (suc (suc f)) (ben_dic_t ∷ s) ≡ dict_loop f s end (ben_dic_t ∷ [])
unfolding get_bendata_from_stream dispatch peek_skipws skip_spaces read_delimeter
get_dictionary f s = refl

-- A list's text with the stream behind it.
pub list_text :
    (t : ℕ) (w : Text) (rest : Stream) → (t ∷ (w ++ (b'e' ∷ []))) ++ rest ≡ t ∷ (w ++ (b'e' ∷ rest))
list_text t w rest = ap (◌∷◌ t) (append_assoc w (b'e' ∷ []) rest)

pub length_close : (w : Text) → length (w ++ (b'e' ∷ [])) ≡ suc (length w)
length_close w = omega (arith, length-append w (b'e' ∷ []))
