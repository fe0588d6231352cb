-- ===== src/TorrentFile/Trackers.antt =====
-- From a metainfo file to the trackers of its urls: get_tracker_urls of src/Client/TorrentFile.cpp
-- and initiatlize_trackers of src/Client/TrackerManager.cpp.
use bittorrent_application_l.Base.{
  ◌≡◌, ap, ◌∙◌, Option, none, some, List, [], ◌∷◌, ◌++◌, append_assoc, append-nil, sym,
}
use bittorrent_application_l.Bencode.{Text, Bendata, Items, nil, cons, actual_value, str_of, lis_of}
use bittorrent_application_l.Bencode.Find.{find_field}
use bittorrent_application_l.Tracker.{Tracker}
use bittorrent_application_l.Tracker.Url.{initiatlize_trackers}
use bittorrent_application_l.Tracker.Grouping.{
  urls_of, of_host, AreApart, AreHosted, initiatlize_trackers-of_host,
}
use bittorrent_application_l.TorrentFile.{
  TorrentFile, made, get_tracker_urls, push_tier, push_tiers, push_list, field_at, second, got,
  announce_key, announce_list_key,
}

-- The values of a tier are strings, and those of the list are tiers.
abbrev AreUrls : Items → List Text → Type 0
AreUrls nil [] = Unit {0}
AreUrls nil (u ∷ us) = ⊥
AreUrls (cons v xs) [] = ⊥
AreUrls (cons v xs) (u ∷ us) = (str_of (actual_value v) ≡ some u) × AreUrls xs us

abbrev pub AreTiers : Items → List (List Text) → Type 0
AreTiers nil [] = Unit {0}
AreTiers nil (us ∷ uss) = ⊥
AreTiers (cons v xs) [] = ⊥
AreTiers (cons v xs) (us ∷ uss) =
    ((ys : Items) × (lis_of (actual_value v) ≡ some ys) × AreUrls ys us) × AreTiers xs uss

abbrev pub tier_urls : List (List Text) → List Text
tier_urls [] = []
tier_urls (us ∷ uss) = us ++ tier_urls uss

push_tier-append :
    (ts : List Text) (xs : Items) (us : List Text)
    → AreUrls xs us
    → push_tier ts xs ≡ made (ts ++ us)
unfolding push_tier got
push_tier-append ts nil [] h = ap made (sym (append-nil ts))
push_tier-append ts nil (u ∷ us) h = absurd h
push_tier-append ts (cons v xs) [] h = absurd h
push_tier-append ts (cons v xs) (u ∷ us) (e, h) =
    rw e (push_tier-append (ts ++ (u ∷ [])) xs us h ∙ ap made (append_assoc ts (u ∷ []) us))

push_tiers-append :
    (ts : List Text) (xs : Items) (uss : List (List Text))
    → AreTiers xs uss
    → push_tiers ts xs ≡ made (ts ++ tier_urls uss)
unfolding push_tiers got
push_tiers-append ts nil [] h = ap made (sym (append-nil ts))
push_tiers-append ts nil (us ∷ uss) h = absurd h
push_tiers-append ts (cons v xs) [] h = absurd h
push_tiers-append ts (cons v xs) (us ∷ uss) ((ys, e, g), h) =
    rw (e, push_tier-append ts ys us g)
      (push_tiers-append (ts ++ us) xs uss h ∙ ap made (append_assoc ts us (tier_urls uss)))

-- What the announce list adds, if there is one.
abbrev pub IsAnnounceList : Option Bendata → List (List Text) → Type 0
IsAnnounceList none uss = uss ≡ []
IsAnnounceList (some v) uss = (xs : Items) × (lis_of (actual_value v) ≡ some xs) × AreTiers xs uss

push_list-append :
    (ts : List Text) (o : Option Bendata) (uss : List (List Text))
    → IsAnnounceList o uss
    → push_list ts o ≡ made (ts ++ tier_urls uss)
unfolding push_list got
push_list-append ts none uss e = rw e (ap made (sym (append-nil ts)))
push_list-append ts (some v) uss (xs, e, h) = rw e (push_tiers-append ts xs uss h)

get_tracker_urls_lem :
    (f : TorrentFile) (a : Bendata) (s : Text) (uss : List (List Text))
    → find_field announce_key f.transcibe ≡ some a
    → str_of (actual_value a) ≡ some s
    → IsAnnounceList (find_field announce_list_key f.transcibe) uss
    → get_tracker_urls f ≡ made (s ∷ tier_urls uss)
unfolding get_tracker_urls field_at second got
get_tracker_urls_lem f a s uss e g h =
    rw (e, g) (push_list-append (s ∷ []) (find_field announce_list_key f.transcibe) uss h)

-- A torrent file whose announce is a string and whose announce list, if there is one, has lists of
-- strings, each of these urls with a host name: get_tracker_urls gives the announce url and those
-- of the list in order, the manager makes trackers of them, no two with one key, and the urls of
-- the tracker with a host's name are those of that host, in the file's order.
pub initiatlize_trackers-get_tracker_urls :
    (f : TorrentFile) (a : Bendata) (s : Text) (uss : List (List Text)) (key : Text)
    → find_field announce_key f.transcibe ≡ some a
    → str_of (actual_value a) ≡ some s
    → IsAnnounceList (find_field announce_list_key f.transcibe) uss
    → AreHosted (s ∷ tier_urls uss)
    → (get_tracker_urls f ≡ made (s ∷ tier_urls uss))
      × ((ts : List (Text × Tracker)) × (initiatlize_trackers (s ∷ tier_urls uss) [] ≡ some ts)
          × AreApart ts
          × (urls_of key ts ≡ of_host key (s ∷ tier_urls uss)))
unfolding urls_of
initiatlize_trackers-get_tracker_urls f a s uss key e g h hosted = (
  get_tracker_urls_lem f a s uss e g h,
  initiatlize_trackers-of_host key (s ∷ tier_urls uss) [] hosted tt,
)
