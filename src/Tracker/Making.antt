-- ===== src/Tracker/Making.antt =====
-- The trackers that a list of urls makes have an http url among theirs, if they are marked so.
use bittorrent_application_l.Base.{
  ℕ, suc, zero, ◌+◌, ◌^◌, ◌<◌, ◌≤◌, ◌≡◌, refl, subst, inl, inr, true, Option, none, some, List, [],
  ◌∷◌, ◌++◌, arith, length, length-append, Bool-cases, Option-cases,
}
use bittorrent_application_l.Bencode.{Text}
use bittorrent_application_l.Tracker.{Tracker, tracker}
use bittorrent_application_l.Tracker.Url.{
  starts_with, http, add_url, initiatlize_trackers, get_hostname, url_at, tag_http_presence,
}
use bittorrent_application_l.Bencode.Find.{equal}
use bittorrent_application_l.Tracker.Connections.{AreAll}
use bittorrent_application_l.Tracker.Seek.{IsHttpAt, IsSeekable}

-- A tracker of at most `n` urls.
abbrev IsMade : ℕ → Tracker → Type 0
IsMade n t =
    (t.current_announce_url_index < length t.announce_urls)
    × (length t.announce_urls ≤ n)
    × (t.has_http ≡ true → (p : ℕ) × (p < length t.announce_urls) × IsHttpAt t.announce_urls p)

url_at-append :
    (us vs : List Text) (p : ℕ) {u : Text} → url_at us p ≡ some u → url_at (us ++ vs) p ≡ some u
unfolding url_at
url_at-append [] vs p e = cc
url_at-append (u ∷ us) vs zero e = e
url_at-append (u ∷ us) vs (suc p) e = url_at-append us vs p e

url_at_last : (us : List Text) (u : Text) → url_at (us ++ (u ∷ [])) (length us) ≡ some u
unfolding url_at
url_at_last [] u = refl
url_at_last (v ∷ us) u = url_at_last us u

tracker-IsMade : (n : ℕ) (url : Text) → IsMade (suc n) (tag_http_presence url (tracker url))
unfolding tracker url_at
tracker-IsMade n url = (omega arith, omega arith, λ h. (0, omega arith, (url, refl, ground arith)))

-- One url more.
longer-IsMade :
    (n : ℕ) (url : Text) (t : Tracker)
    → IsMade n t
    → IsMade
        (suc n)
        (tag_http_presence url (record t { announce_urls = t.announce_urls ++ (url ∷ []) }))
longer-IsMade n url t (i, l, k) =
    let e = length-append t.announce_urls (url ∷ []) in
    (
      omega arith,
      omega arith,
      λ h. elim (Bool-cases (starts_with url http)) [
        | inl y ↦ (length t.announce_urls, omega arith, (url, url_at_last t.announce_urls url, y))
        | inr y ↦
            let (p, b, (u, at, is)) = k (ground arith) in
            (p, omega arith, (u, url_at-append t.announce_urls (url ∷ []) p at, is))
      ],
    )

weaken_one : (n : ℕ) (t : Tracker) → IsMade n t → IsMade (suc n) t
weaken_one n t (i, l, p) = (i, omega arith, p)

weaken : (n : ℕ) (ts : List (Text × Tracker)) → AreAll (IsMade n) ts → AreAll (IsMade (suc n)) ts
weaken n [] h = tt
weaken n ((k, t) ∷ ts) (s, h) = (weaken_one n t s, weaken n ts h)

add_url-IsMade :
    (n : ℕ) (key url : Text) (ts : List (Text × Tracker))
    → AreAll (IsMade n) ts
    → AreAll (IsMade (suc n)) (add_url key url ts)
unfolding add_url
add_url-IsMade n key url [] h = (tracker-IsMade n url, tt)
add_url-IsMade n key url ((k, t) ∷ ts) (s, h) = elim (Bool-cases (equal k key)) [
  | inl e ↦ rw e (longer-IsMade n url t s, weaken n ts h)
  | inr e ↦ rw e (weaken_one n t s, add_url-IsMade n key url ts h)
]

abbrev pub AllMade : ℕ → Option (List (Text × Tracker)) → Type 0
AllMade n none = Unit {0}
AllMade n (some ts) = AreAll (IsMade n) ts

pub initiatlize_trackers-AllMade :
    (n : ℕ) (urls : List Text) (ts : List (Text × Tracker))
    → AreAll (IsMade n) ts
    → AllMade (n + length urls) (initiatlize_trackers urls ts)
unfolding initiatlize_trackers
initiatlize_trackers-AllMade n [] ts h =
    subst (λ k. AreAll (IsMade k) ts) (let q : n ≡ n + 0 = omega arith in q) h
initiatlize_trackers-AllMade n (url ∷ urls) ts h = elim (Option-cases (get_hostname url)) [
  | inl e ↦ rw e tt
  | inr (key, e) ↦ rw e (
      subst (λ k. AllMade k (initiatlize_trackers urls (add_url key url ts)))
        (let q : suc n + length urls ≡ n + suc (length urls) = omega arith in q)
        (initiatlize_trackers-AllMade (suc n) urls (add_url key url ts)
          (add_url-IsMade n key url ts h)))
]

pub IsMade-IsSeekable :
    (n : ℕ) (ts : List (Text × Tracker)) → n < 2 ^ 64 → AreAll (IsMade n) ts → AreAll IsSeekable ts
IsMade-IsSeekable n [] b h = tt
IsMade-IsSeekable n ((k, t) ∷ ts) b ((i, l, p), h) =
    ((i, omega arith, p), IsMade-IsSeekable n ts b h)
