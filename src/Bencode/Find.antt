-- ===== src/Bencode/Find.antt =====
-- std::map's lookup by key.
use bittorrent_application_l.Base.{
  Bool, true, false, ◌&&◌, Option, none, some, [], ◌∷◌, ◌==◌, if◌then◌else◌,
}
use bittorrent_application_l.Bencode.{Text, Bendata, Fields, end, field}

unfoldable pub equal : Text → Text → Bool
equal [] [] = true
equal [] (d ∷ t) = false
equal (c ∷ s) [] = false
equal (c ∷ s) (d ∷ t) = c == d && equal s t

-- find; `none` is end().
unfoldable pub find_field : Text → Fields → Option Bendata
unfolding equal
find_field k end = none
find_field k (field j v fs) = if equal k j then some v else find_field k fs
