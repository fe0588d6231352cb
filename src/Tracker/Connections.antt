-- ===== src/Tracker/Connections.antt =====
-- The trackers of a manager, by their place.
use bittorrent_application_l.Base.{
  ℕ, suc, zero, ◌<◌, ◌≡◌, ◌≢◌, refl, ap, subst, Option, none, some, List, [], ◌∷◌, arith, length,
}
use bittorrent_application_l.Bencode.{Text}
use bittorrent_application_l.Tracker.{Tracker}
use bittorrent_application_l.Tracker.Space.{tracker_of, put_tracker}

module _ (P : Tracker → Type 0) where
  abbrev pub AreAll : List (Text × Tracker) → Type 0
  AreAll [] = Unit {0}
  AreAll ((k, t) ∷ ts) = P t × AreAll ts

  abbrev AllSome : Option Tracker → Type 0
  AllSome none = Unit {0}
  AllSome (some t) = P t

  pub tracker_of-AreAll :
      (ts : List (Text × Tracker)) (i : ℕ) {t : Tracker}
      → AreAll ts
      → tracker_of ts i ≡ some t
      → P t × (i < length ts)
  unfolding tracker_of
  tracker_of-AreAll [] i h e = cc
  tracker_of-AreAll ((k, t) ∷ ts) zero (s, h) e = (subst AllSome e s, omega arith)
  tracker_of-AreAll ((k, t) ∷ ts) (suc i) (s, h) e =
      let (p, q) = tracker_of-AreAll ts i h e in (p, omega arith)

  pub put_tracker-AreAll :
      (ts : List (Text × Tracker)) (i : ℕ) (u : Tracker)
      → AreAll ts
      → P u
      → AreAll (put_tracker ts i u)
  unfolding put_tracker
  put_tracker-AreAll [] i u h s = tt
  put_tracker-AreAll ((k, t) ∷ ts) zero u (p, h) s = (s, h)
  put_tracker-AreAll ((k, t) ∷ ts) (suc i) u (p, h) s = (p, put_tracker-AreAll ts i u h s)

pub length-put_tracker :
    (ts : List (Text × Tracker)) (i : ℕ) (u : Tracker) → length (put_tracker ts i u) ≡ length ts
unfolding put_tracker
length-put_tracker [] i u = refl
length-put_tracker ((k, t) ∷ ts) zero u = refl
length-put_tracker ((k, t) ∷ ts) (suc i) u = ap suc (length-put_tracker ts i u)

pub tracker_of_lt :
    (ts : List (Text × Tracker)) (i : ℕ)
    → i < length ts
    → (t : Tracker) × (tracker_of ts i ≡ some t)
unfolding tracker_of
tracker_of_lt [] i h = elim h [ ]
tracker_of_lt ((k, t) ∷ ts) zero h = (t, refl)
tracker_of_lt ((k, t) ∷ ts) (suc i) h = tracker_of_lt ts i (omega arith)

pub tracker_of-put_self :
    (ts : List (Text × Tracker)) (i : ℕ) (u : Tracker) {t : Tracker}
    → tracker_of ts i ≡ some t
    → tracker_of (put_tracker ts i u) i ≡ some u
unfolding tracker_of put_tracker
tracker_of-put_self [] i u e = cc
tracker_of-put_self ((k, t) ∷ ts) zero u e = refl
tracker_of-put_self ((k, t) ∷ ts) (suc i) u e = tracker_of-put_self ts i u e

pub tracker_of-put_ne :
    (ts : List (Text × Tracker)) (i j : ℕ) (u : Tracker)
    → i < j
    → tracker_of (put_tracker ts j u) i ≡ tracker_of ts i
unfolding tracker_of put_tracker
tracker_of-put_ne [] i j u l = refl
tracker_of-put_ne ((k, t) ∷ ts) i zero u l = absurd (omega arith)
tracker_of-put_ne ((k, t) ∷ ts) zero (suc j) u l = refl
tracker_of-put_ne ((k, t) ∷ ts) (suc i) (suc j) u l = tracker_of-put_ne ts i j u (omega arith)

pub tracker_of-put_apart :
    (ts : List (Text × Tracker)) (i j : ℕ) (u : Tracker)
    → i ≢ j
    → tracker_of (put_tracker ts j u) i ≡ tracker_of ts i
unfolding tracker_of put_tracker
tracker_of-put_apart [] i j u ne = refl
tracker_of-put_apart ((k, t) ∷ ts) zero zero u ne = absurd (ne refl)
tracker_of-put_apart ((k, t) ∷ ts) (suc i) zero u ne = refl
tracker_of-put_apart ((k, t) ∷ ts) zero (suc j) u ne = refl
tracker_of-put_apart ((k, t) ∷ ts) (suc i) (suc j) u ne =
    tracker_of-put_apart ts i j u (λ e. ne (ap suc e))
