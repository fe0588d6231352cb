-- ===== src/Tracker/Seek.antt =====
-- The search for an http url ends: src/Client/TrackerManager.cpp, populate_manager_space.
use bittorrent_application_l.Base.{
  ℕ, suc, zero, ◌+◌, ◌-◌, ◌^◌, ◌<◌, ◌≤◌, ◌≡◌, ◌≢◌, refl, sym, ap, subst, ◌∙◌, inl, inr, true, false,
  Option, none, some, List, [], ◌∷◌, arith, length, ltb, leb, if◌then◌else◌, Bool-cases, add_size,
}
use bittorrent_application_l.Bencode.{Text}
use bittorrent_application_l.Tracker.{Tracker}
use bittorrent_application_l.Tracker.Url.{
  starts_with, http, url_at, next_url_index, seek_to_next_url, seek_http,
}

-- How many urls on, round the end, the one at `p` comes behind the one at `i`, of `n`.
abbrev distance : ℕ → ℕ → ℕ → ℕ
distance p i n = if ltb i p then p - i else p + n - i

url_at_lt : (us : List Text) (i : ℕ) → i < length us → (u : Text) × (url_at us i ≡ some u)
unfolding url_at
url_at_lt [] i h = elim h [ ]
url_at_lt (u ∷ us) zero h = (u, refl)
url_at_lt (u ∷ us) (suc i) h = url_at_lt us i (omega arith)

-- The url at `p` is an http url.
abbrev pub IsHttpAt : List Text → ℕ → Type 0
IsHttpAt us p = (u : Text) × (url_at us p ≡ some u) × (starts_with u http ≡ true)

abbrev cyclic_next : ℕ → ℕ → ℕ
cyclic_next i n = if leb n (i + 1) then 0 else (i + 1)

cyclic_next-lt : (i n : ℕ) → i < n → cyclic_next i n < n
cyclic_next-lt i n h = ground arith

distance-cyclic_next :
    (i n p : ℕ)
    → i < n
    → p < n
    → cyclic_next i n ≢ p
    → suc (distance p (cyclic_next i n) n) ≡ distance p i n
distance-cyclic_next i n p h l e = ground arith

next_url_index-cyclic :
    (t : Tracker)
    → t.current_announce_url_index < length t.announce_urls
    → length t.announce_urls < 2 ^ 64
    → next_url_index t ≡ cyclic_next t.current_announce_url_index (length t.announce_urls)
unfolding next_url_index
next_url_index-cyclic t h b =
    let e : add_size t.current_announce_url_index 1 ≡ t.current_announce_url_index + 1 =
      omega arith in
    rw e refl

-- Within the urls, of which there are fewer than a size_t counts, and with an http url among them if
-- it is marked so.
abbrev pub IsSeekable : Tracker → Type 0
IsSeekable t =
    (t.current_announce_url_index < length t.announce_urls)
    × (length t.announce_urls < 2 ^ 64)
    × (t.has_http ≡ true → (p : ℕ) × (p < length t.announce_urls) × IsHttpAt t.announce_urls p)

-- What a search leaves: a tracker at an http url.
abbrev pub IsFound : Option Tracker → Type 0
IsFound none = ⊥
IsFound (some u) = (u.http_mode ≡ true) × IsSeekable u

distance-pos : (p i n : ℕ) → p < n → i < n → 0 < distance p i n
distance-pos p i n l h = ground arith

-- The tracker at its next url.
abbrev sought : Tracker → Text → Tracker
sought t u = record t {
  current_announce_url_index = next_url_index t;
  http_mode = starts_with u http;
}

pub seek_http_there : (f : ℕ) (t : Tracker) → t.http_mode ≡ true → seek_http (suc f) t ≡ some t
unfolding seek_http
seek_http_there f t h = ground arith

seek_http_on :
    (f : ℕ) (t : Tracker) (u : Text)
    → t.http_mode ≡ false
    → url_at t.announce_urls (next_url_index t) ≡ some u
    → seek_http (suc f) t ≡ seek_http f (sought t u)
unfolding seek_http seek_to_next_url
seek_http_on f t u h at = ground arith

http-IsFound :
    (f : ℕ) (t : Tracker) → 0 < f → t.http_mode ≡ true → IsSeekable t → IsFound (seek_http f t)
http-IsFound zero t l h s = elim l [ ]
http-IsFound (suc f) t l h s = subst IsFound (sym (seek_http_there f t h)) (h, s)

-- Urls that differ stand at different places.
apart :
    (us : List Text) (p q : ℕ) {u w : Text}
    → url_at us p ≡ some w
    → url_at us q ≡ some u
    → starts_with w http ≡ true
    → starts_with u http ≡ false
    → q ≢ p
apart us p q at bt is not_so e = cc (ap (url_at us) e)

seek_http-IsFound :
    (f : ℕ) (t : Tracker) (p : ℕ)
    → IsSeekable t
    → p < length t.announce_urls
    → IsHttpAt t.announce_urls p
    → distance p t.current_announce_url_index (length t.announce_urls) < f
    → IsFound (seek_http f t)
seek_http-IsFound zero t p s l h d = absurd (omega arith)
seek_http-IsFound (suc f) t p (i, b, k) l (w, at, is) d = elim (Bool-cases t.http_mode) [
  | inl e ↦ http-IsFound (suc f) t (omega arith) e (i, b, k)
  | inr e ↦
      let n = length t.announce_urls in
      let c = next_url_index-cyclic t i b in
      let lt : next_url_index t < n = subst (λ j. j < n) (sym c) (cyclic_next-lt _ n i) in
      let (u, ut) = url_at_lt t.announce_urls (next_url_index t) lt in
      subst IsFound (sym (seek_http_on f t u e ut)) (elim (Bool-cases (starts_with u http)) [
        | inl y ↦
            let z = distance-pos p t.current_announce_url_index n l i in
            http-IsFound f (sought t u) (omega arith) y (lt, b, k)
        | inr y ↦
            let ne = apart t.announce_urls p (next_url_index t) at ut is y in
            let less =
              distance-cyclic_next t.current_announce_url_index n p i l (λ q. ne (c ∙ q)) in
            let same = ap (λ j. distance p j n) c in
            seek_http-IsFound f (sought t u) p (lt, b, k) l (w, at, is) (omega arith)
      ])
]

distance-le : (p i n : ℕ) → p < n → i < n → distance p i n ≤ n
distance-le p i n l h = ground arith

-- A round of the urls is enough.
pub seek_http-round :
    (t : Tracker)
    → IsSeekable t
    → t.has_http ≡ true
    → IsFound (seek_http (suc (length t.announce_urls)) t)
seek_http-round t (i, b, k) h =
    let (p, l, at) = k h in
    let d = distance-le p t.current_announce_url_index (length t.announce_urls) l i in
    seek_http-IsFound (suc (length t.announce_urls)) t p (i, b, k) l at (omega arith)
