-- ===== src/Bencode/RoundTrip.antt =====
-- What the encoders write, the decoders read back.
use bittorrent_application_l.Base.{
  ℕ, zero, suc, ◌+◌, ◌*◌, ◌≤◌, ◌≡◌, ap, ◌∙◌, [], ◌∷◌, ◌++◌, append_assoc, arith, length,
  length-append,
}
use bittorrent_application_l.Bencode.{
  Text, Bendata, bendata, num, str, lis, dic, Items, nil, cons, Fields, end, field, get_encode,
  ben_lis_t, ben_dic_t,
}
use bittorrent_application_l.Bencode.Stream.{Stream}
use bittorrent_application_l.Bencode.Encode.{
  encode, items_text, fields_text, encode_to_list-encodes, IsAbove, IsSorted,
}
use bittorrent_application_l.Bencode.Order.{
  encode_to_dict-pairs, append_field, append_fields, IsBelow, assign-IsBelow, append_field-IsBelow,
  append_field-cons, append_fields-end,
}
use bittorrent_application_l.Bencode.Decode.{
  done, snoc, get_bendata_from_stream, list_loop, dict_loop, bendecode_from_file,
}
use bittorrent_application_l.Bencode.Encoded.{
  IsEncoded, AreEncoded, AreEncodedFields, IsEncoded-Starts,
}
use bittorrent_application_l.Bencode.Steps.{
  append_items, append_items-snoc, append_items-nil, list_loop_step, list_loop_end, dict_loop_step,
  dict_loop_end, get-encode, get-encode_int, loop_text, Starts-pos, get_list, get_dictionary,
  list_text, length_close,
}

-- Every key of a map is below the first of the fields that follow.
abbrev PrecedesAll : Fields → Fields → Type 0
PrecedesAll acc end = Unit {0}
PrecedesAll acc (field k v fs) = IsBelow acc k

first_PrecedesAll : (fs : Fields) → PrecedesAll end fs
first_PrecedesAll end = tt
first_PrecedesAll (field k v fs) = tt

next_PrecedesAll :
    (acc : Fields) (k : Text) (v : Bendata) (fs : Fields)
    → IsBelow acc k
    → IsAbove k fs
    → PrecedesAll (append_field acc k v) fs
next_PrecedesAll acc k v end b o = tt
next_PrecedesAll acc k v (field j w fs) b (lt, o) = append_field-IsBelow acc k j v b lt

IsAbove-IsSorted : (k : Text) (fs : Fields) → IsAbove k fs → IsSorted fs
IsAbove-IsSorted k end o = tt
IsAbove-IsSorted k (field j v fs) (lt, o) = o

field_text : (k v w r : Text) → (k ++ (v ++ w)) ++ r ≡ k ++ (v ++ (w ++ r))
field_text k v w r = simp (append_assoc)

dict_text :
    (t k v w : Text) → (t ++ (k ++ v)) ++ (w ++ (b'e' ∷ [])) ≡ t ++ ((k ++ (v ++ w)) ++ (b'e' ∷ []))
dict_text t k v w = simp (append_assoc)

mutual
  get-IsEncoded :
      (f : ℕ) (v : Bendata) (rest : Stream)
      → IsEncoded v
      → 3 * length (get_encode v) + 3 ≤ f
      → get_bendata_from_stream f (get_encode v ++ rest) ≡ done (v, rest)
  get-IsEncoded zero v rest h l = absurd (omega arith)
  get-IsEncoded (suc zero) v rest h l = absurd (omega arith)
  get-IsEncoded (suc (suc f)) (bendata (num z) b w) rest (h, e, g) l =
      rw (e, g) (get-encode_int (suc f) z rest h)
  get-IsEncoded (suc (suc f)) (bendata (str s) b w) rest (h, e, g) l =
      rw (e, g) (get-encode (suc f) s rest h)
  get-IsEncoded (suc (suc f)) (bendata (lis xs) b w) rest (h, e, g) l =
      let eq = e ∙ encode_to_list-encodes xs in
      let n = ap (λ u. length u) eq in
      let m = length_close (items_text xs) in
      rw (eq, g)
        (ap (get_bendata_from_stream (suc (suc f))) (list_text ben_lis_t (items_text xs) rest)
          ∙ get_list f (items_text xs ++ (b'e' ∷ rest))
          ∙ list_loop-AreEncoded f xs rest nil (ben_lis_t ∷ []) h (omega arith))
  get-IsEncoded (suc (suc f)) (bendata (dic fs) b w) rest (h, o, e, g) l =
      let eq = e ∙ encode_to_dict-pairs fs o in
      let n = ap (λ u. length u) eq in
      let m = length_close (fields_text fs) in
      rw (eq, g)
        (ap (get_bendata_from_stream (suc (suc f))) (list_text ben_dic_t (fields_text fs) rest)
          ∙ get_dictionary f (fields_text fs ++ (b'e' ∷ rest))
          ∙ dict_loop-AreEncoded f fs rest end (ben_dic_t ∷ []) h o (first_PrecedesAll fs)
              (omega arith))

  list_loop-AreEncoded :
      (f : ℕ) (xs : Items) (rest : Stream) (acc : Items) (t : Text)
      → AreEncoded xs
      → 3 * length (items_text xs) + 4 ≤ f
      → list_loop f (items_text xs ++ (b'e' ∷ rest)) acc t
        ≡ done (
          bendata (lis (append_items acc xs)) (t ++ (items_text xs ++ (b'e' ∷ []))) ben_lis_t,
          rest,
        )
  list_loop-AreEncoded zero xs rest acc t h l = absurd (omega arith)
  list_loop-AreEncoded (suc f) nil rest acc t h l =
      list_loop_end f rest acc t ∙ rw (append_items-nil acc)
  list_loop-AreEncoded (suc f) (cons v xs) rest acc t (h, k) l =
      let n = length-append (get_encode v) (items_text xs) in
      let p = Starts-pos (get_encode v) (IsEncoded-Starts v [] h) in
      ap (λ s. list_loop (suc f) s acc t)
        (append_assoc (get_encode v) (items_text xs) (b'e' ∷ rest))
      ∙ list_loop_step f (get_encode v ++ (items_text xs ++ (b'e' ∷ rest)))
          (items_text xs ++ (b'e' ∷ rest)) v acc t
          (IsEncoded-Starts v (items_text xs ++ (b'e' ∷ rest)) h)
          (get-IsEncoded f v (items_text xs ++ (b'e' ∷ rest)) h (omega arith))
      ∙ list_loop-AreEncoded f xs rest (snoc acc v) (t ++ get_encode v) k (omega arith)
      ∙ rw (append_items-snoc acc v xs, loop_text t (get_encode v) (items_text xs))

  dict_loop-AreEncoded :
      (f : ℕ) (fs : Fields) (rest : Stream) (acc : Fields) (t : Text)
      → AreEncodedFields fs
      → IsSorted fs
      → PrecedesAll acc fs
      → 3 * length (fields_text fs) + 4 ≤ f
      → dict_loop f (fields_text fs ++ (b'e' ∷ rest)) acc t
        ≡ done (
          bendata (dic (append_fields acc fs)) (t ++ (fields_text fs ++ (b'e' ∷ []))) ben_dic_t,
          rest,
        )
  dict_loop-AreEncoded zero fs rest acc t h o b l = absurd (omega arith)
  dict_loop-AreEncoded (suc f) end rest acc t h o b l =
      dict_loop_end f rest acc t ∙ rw (append_fields-end acc)
  dict_loop-AreEncoded (suc f) (field k v fs) rest acc t (lk, h, hs) o b l =
      let u = fields_text fs ++ (b'e' ∷ rest) in
      let n = length-append (get_encode v) (fields_text fs) in
      let m = length-append (encode k) (get_encode v ++ fields_text fs) in
      let p = Starts-pos (get_encode v) (IsEncoded-Starts v [] h) in
      ap (λ s. dict_loop (suc f) s acc t)
        (field_text (encode k) (get_encode v) (fields_text fs) (b'e' ∷ rest))
      ∙ dict_loop_step f k (get_encode v ++ u) u v acc t lk (get-IsEncoded f v u h (omega arith))
      ∙ ap (λ a. dict_loop f u a (t ++ (encode k ++ get_encode v))) (assign-IsBelow acc k v b)
      ∙ dict_loop-AreEncoded f fs rest (append_field acc k v) (t ++ (encode k ++ get_encode v)) hs
          (IsAbove-IsSorted k fs o) (next_PrecedesAll acc k v fs b o) (omega arith)
      ∙ rw (append_field-cons acc k v fs, dict_text t (encode k) (get_encode v) (fields_text fs))

-- A decoder that is given an encoder's text, with any bytes behind it, gives the value back, its
-- `bencode` the text, and leaves those bytes.
pub bendecode_from_file-IsEncoded :
    (v : Bendata) (rest : Stream)
    → IsEncoded v
    → bendecode_from_file (get_encode v ++ rest) ≡ done (v, rest)
unfolding bendecode_from_file
bendecode_from_file-IsEncoded v rest h =
    let n = length-append (get_encode v) rest in
    get-IsEncoded (3 * length (get_encode v ++ rest) + 3) v rest h (omega arith)
