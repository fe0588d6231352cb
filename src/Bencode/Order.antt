-- ===== src/Bencode/Order.antt =====
-- The order of the keys, and maps that are kept in it.
use bittorrent_application_l.Base.{
  ◌≡◌, refl, ap, inl, inr, true, false, [], ◌∷◌, ◌++◌, arith, Bool-cases,
}
use bittorrent_application_l.Bencode.{
  Text, Bendata, Fields, end, field, text_ltb, assign, ben_dic_t, ben_delimeter,
}
use bittorrent_application_l.Bencode.Encode.{
  IsAbove, IsSorted, pairs, insert_pair, sort_pairs, encode_to_dict, fields_text,
  append_pairs-pairs,
}

pub text_ltb_asym : (s t : Text) → text_ltb s t ≡ true → text_ltb t s ≡ false
unfolding text_ltb
text_ltb_asym [] [] h = cc
text_ltb_asym [] (d ∷ t) h = refl
text_ltb_asym (c ∷ s) [] h = cc
text_ltb_asym (c ∷ s) (d ∷ t) h = ground (arith, text_ltb_asym s t)

pub text_ltb_trans :
    (r s t : Text) → text_ltb r s ≡ true → text_ltb s t ≡ true → text_ltb r t ≡ true
unfolding text_ltb
text_ltb_trans r s [] h k = cc
text_ltb_trans r [] (e ∷ t) h k = absurd (none_below r h)
  where
    none_below : (r : Text) → text_ltb r [] ≡ true → ⊥
    none_below [] h = cc
    none_below (c ∷ r) h = cc
text_ltb_trans [] (d ∷ s) (e ∷ t) h k = refl
text_ltb_trans (c ∷ r) (d ∷ s) (e ∷ t) h k = ground (arith, text_ltb_trans r s t)

pub text_ltb_tri : (s t : Text) → text_ltb s t ≡ false → text_ltb t s ≡ false → s ≡ t
unfolding text_ltb
text_ltb_tri [] [] h k = refl
text_ltb_tri [] (d ∷ t) h k = cc
text_ltb_tri (c ∷ s) [] h k = cc
text_ltb_tri (c ∷ s) (d ∷ t) h k = ground (arith, text_ltb_tri s t)

sort_pairs-IsSorted : (fs : Fields) → IsSorted fs → sort_pairs (pairs fs) ≡ pairs fs
unfolding sort_pairs insert_pair
sort_pairs-IsSorted end h = refl
sort_pairs-IsSorted (field k v end) h = refl
sort_pairs-IsSorted (field k v (field j w fs)) (lt, h) =
    rw (sort_pairs-IsSorted (field j w fs) h, text_ltb_asym k j lt)

-- A map's pairs are in order, so the sort leaves them.
pub encode_to_dict-pairs :
    (fs : Fields)
    → IsSorted fs
    → encode_to_dict (pairs fs) ≡ ben_dic_t ∷ (fields_text fs ++ (ben_delimeter ∷ []))
unfolding encode_to_dict
encode_to_dict-pairs fs h = rw (sort_pairs-IsSorted fs h, append_pairs-pairs (ben_dic_t ∷ []) fs)

assign-IsAbove :
    (i k : Text) (v : Bendata) (fs : Fields)
    → text_ltb i k ≡ true
    → IsAbove i fs
    → IsAbove i (assign k v fs)
unfolding assign
assign-IsAbove i k v end l h = (l, tt)
assign-IsAbove i k v (field j w fs) l (lt, h) = elim (Bool-cases (text_ltb k j)) [
  | inl e ↦ rw e (l, (e, h))
  | inr e ↦ rw e (elim (Bool-cases (text_ltb j k)) [
    | inl g ↦ rw g (lt, assign-IsAbove j k v fs g h)
    | inr g ↦ rw g (lt, h)
  ])
]

-- A write keeps the keys in order and different.
pub assign-IsSorted :
    (k : Text) (v : Bendata) (fs : Fields) → IsSorted fs → IsSorted (assign k v fs)
unfolding assign
assign-IsSorted k v end h = tt
assign-IsSorted k v (field j w fs) h = elim (Bool-cases (text_ltb k j)) [
  | inl e ↦ rw e (e, h)
  | inr e ↦ rw e (elim (Bool-cases (text_ltb j k)) [
    | inl g ↦ rw g (assign-IsAbove j k v fs g h)
    | inr g ↦ rw g h
  ])
]

-- A map with a pair more at its end.
abbrev pub append_field : Fields → Text → Bendata → Fields
append_field end k v = field k v end
append_field (field j w fs) k v = field j w (append_field fs k v)

-- Every key is below.
abbrev pub IsBelow : Fields → Text → Type 0
IsBelow end k = Unit {0}
IsBelow (field j v fs) k = (text_ltb j k ≡ true) × IsBelow fs k

-- A key past the others is added at the end.
pub assign-IsBelow :
    (fs : Fields) (k : Text) (v : Bendata) → IsBelow fs k → assign k v fs ≡ append_field fs k v
unfolding assign
assign-IsBelow end k v h = refl
assign-IsBelow (field j w fs) k v (lt, h) = rw (text_ltb_asym j k lt, lt, assign-IsBelow fs k v h)

pub append_field-IsBelow :
    (fs : Fields) (k j : Text) (v : Bendata)
    → IsBelow fs k
    → text_ltb k j ≡ true
    → IsBelow (append_field fs k v) j
append_field-IsBelow end k j v h lt = (lt, tt)
append_field-IsBelow (field i w fs) k j v (l, h) lt =
    (text_ltb_trans i k j l lt, append_field-IsBelow fs k j v h lt)

-- One map after another.
abbrev pub append_fields : Fields → Fields → Fields
append_fields end gs = gs
append_fields (field k v fs) gs = field k v (append_fields fs gs)

pub append_field-cons :
    (fs : Fields) (k : Text) (v : Bendata) (gs : Fields)
    → append_fields (append_field fs k v) gs ≡ append_fields fs (field k v gs)
append_field-cons end k v gs = refl
append_field-cons (field j w fs) k v gs = ap (field j w) (append_field-cons fs k v gs)

pub append_fields-end : (fs : Fields) → append_fields fs end ≡ fs
append_fields-end end = refl
append_fields-end (field j w fs) = ap (field j w) (append_fields-end fs)
