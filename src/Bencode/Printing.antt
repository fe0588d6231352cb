-- ===== src/Bencode/Printing.antt =====
-- A decoded value is printed without an exception.
use bittorrent_application_l.Base.{◌≡◌, subst}
use bittorrent_application_l.Bencode.{
  Bendata, bendata, num, str, lis, dic, Items, nil, cons, Fields, end, field,
}
use bittorrent_application_l.Bencode.Stream.{Stream}
use bittorrent_application_l.Bencode.Show.{
  show, show_items, show_fields, entry, IsShown, enclosed-IsShown, comma-IsShown, entry-IsShown,
}
use bittorrent_application_l.Bencode.Decode.{done, bendecode_from_file}
use bittorrent_application_l.Bencode.Shape.{
  IsTagged, AreTagged, AreTaggedFields, GivesTagged, get-GivesTagged,
}

mutual
  unfolding show

  show-IsTagged : (v : Bendata) → IsTagged v → IsShown (show v)
  show-IsTagged (bendata (num z) b t) (h, e) = rw e tt
  show-IsTagged (bendata (str s) b t) e = rw e tt
  show-IsTagged (bendata (lis xs) b t) (h, e) =
      rw e (enclosed-IsShown b'[' b']' (show_items xs) (show_items-AreTagged xs h))
  show-IsTagged (bendata (dic fs) b t) (h, o, e) =
      rw e (enclosed-IsShown b'{' b'}' (show_fields fs) (show_fields-AreTagged fs h))

  show_items-AreTagged : (xs : Items) → AreTagged xs → IsShown (show_items xs)
  show_items-AreTagged nil h = tt
  show_items-AreTagged (cons v nil) (h, k) = show-IsTagged v h
  show_items-AreTagged (cons v (cons w xs)) (h, k) =
      comma-IsShown (show v) (show_items (cons w xs)) (show-IsTagged v h)
        (show_items-AreTagged (cons w xs) k)

  show_fields-AreTagged : (fs : Fields) → AreTaggedFields fs → IsShown (show_fields fs)
  show_fields-AreTagged end h = tt
  show_fields-AreTagged (field k v end) (h, g) = entry-IsShown k (show v) (show-IsTagged v h)
  show_fields-AreTagged (field k v (field j w fs)) (h, g) =
      comma-IsShown (entry k (show v)) (show_fields (field j w fs))
        (entry-IsShown k (show v) (show-IsTagged v h)) (show_fields-AreTagged (field j w fs) g)

-- Whatever the bytes were, a value that was decoded has the tag of its alternative at each level, its
-- numbers are ints and its keys are in order and different; so operator<< prints it and never throws
-- bad_variant_access.
pub bendecode_from_file-IsTagged :
    (s rest : Stream) (v : Bendata)
    → bendecode_from_file s ≡ done (v, rest)
    → IsTagged v × IsShown (show v)
unfolding bendecode_from_file
bendecode_from_file-IsTagged s rest v e =
    let t : IsTagged v = subst GivesTagged e (get-GivesTagged _ s) in (t, show-IsTagged v t)
