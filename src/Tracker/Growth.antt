-- ===== src/Tracker/Growth.antt =====
-- The pointers into the manager's space while it grows.
use mathlib.Core.Option
use bittorrent_application_l.Base.{
  ℕ, suc, zero, ◌+◌, ◌-◌, ◌<◌, ◌≡◌, refl, ap, subst, ◌∙◌, inl, inr, Bool, true, false, Option, none,
  some, List, [], ◌∷◌, ◌++◌, arith, length, ◌>>=◌, leb, if◌then◌else◌, Bool-cases, Option-cases,
}
use bittorrent_application_l.Bencode.{Text}
use bittorrent_application_l.Tracker.{Tracker, TrackerManager, Environment, decrement}
use bittorrent_application_l.Tracker.Url.{seek_http}
use bittorrent_application_l.Tracker.Space.{
  tracker_of, put_tracker, get, push_back, seat, populate_tracker, populate_from,
}
use bittorrent_application_l.Tracker.Connections.{tracker_of-put_self, tracker_of-put_ne}

-- Tracker `i` points into allocation `a`.
abbrev pub PointsInto : ℕ → ℕ → List (Text × Tracker) → Type 0
PointsInto i a ts =
    (t : Tracker) × (j : ℕ) × (tracker_of ts i ≡ some t) × (t.queue_ptr ≡ some (a, j))

-- The loop before its `n`-th tracker, by the cells, the capacity, the allocation and the trackers so
-- far: the first tracker in the space points into the first allocation, which has room for one and
-- is left at the second.
abbrev pub Stage : ℕ → List (Option ℕ) → ℕ → ℕ → List (Text × Tracker) → Type 0
Stage n [] capacity allocation ts = capacity ≡ 0
Stage n (none ∷ ps) capacity allocation ts = ⊥
Stage n (some i ∷ []) capacity allocation ts = (capacity ≡ 1) × (i < n) × PointsInto i allocation ts
Stage n (some i ∷ (p ∷ ps)) capacity allocation ts =
    (i < n) × ((a : ℕ) × (a < allocation) × PointsInto i a ts)

abbrev pub IsStage : ℕ → TrackerManager → Type 0
IsStage n m = Stage n m.manager_space m.capacity m.allocation m.tracker_connections

abbrev pub Goes : ℕ → Option TrackerManager → Type 0
Goes n none = Unit {0}
Goes n (some m) = IsStage n m

Stage-suc :
    (n : ℕ) (ps : List (Option ℕ)) (c a : ℕ) (ts : List (Text × Tracker))
    → Stage n ps c a ts
    → Stage (suc n) ps c a ts
Stage-suc n [] c a ts h = h
Stage-suc n (none ∷ ps) c a ts h = h
Stage-suc n (some i ∷ []) c a ts (e, l, p) = (e, omega arith, p)
Stage-suc n (some i ∷ (p ∷ ps)) c a ts (l, r) = (omega arith, r)

-- A later tracker's change leaves the pointer.
PointsInto-put :
    (i n a : ℕ) (ts : List (Text × Tracker)) (u : Tracker)
    → i < n
    → PointsInto i a ts
    → PointsInto i a (put_tracker ts n u)
PointsInto-put i n a ts u l (t, j, e, q) = (t, j, tracker_of-put_ne ts i n u l ∙ e, q)

abbrev at_back : ℕ → List (Option ℕ) → ℕ → Tracker → Tracker
at_back n ps a u = record u { queue_ptr = some (a, length (ps ++ (some n ∷ [])) - 1) }

-- The vector was full, and moved.
moved-Stage :
    (g n : ℕ) (ps : List (Option ℕ)) (c a : ℕ) (ts : List (Text × Tracker)) {t : Tracker}
    (u : Tracker)
    → (c ≡ 0 → g ≡ 1)
    → tracker_of ts n ≡ some t
    → Stage n ps c a ts
    → Stage (suc n) (ps ++ (some n ∷ [])) g (suc a) (put_tracker ts n (at_back n ps (suc a) u))
moved-Stage g n [] c a ts u one e h =
    (one h, omega arith, (at_back n [] (suc a) u, 0, tracker_of-put_self ts n _ e, refl))
moved-Stage g n (none ∷ ps) c a ts u one e h = absurd h
moved-Stage g n (some i ∷ []) c a ts u one e (k, l, p) =
    (omega arith, (a, omega arith, PointsInto-put i n a ts _ l p))
moved-Stage g n (some i ∷ (q ∷ ps)) c a ts u one e (l, (b, k, p)) =
    (omega arith, (b, omega arith, PointsInto-put i n b ts _ l p))

-- The vector had room, which it has not for its first two.
kept-Stage :
    (n : ℕ) (ps : List (Option ℕ)) (c a : ℕ) (ts : List (Text × Tracker)) (u : Tracker)
    → length ps < c
    → Stage n ps c a ts
    → Stage (suc n) (ps ++ (some n ∷ [])) c a (put_tracker ts n u)
kept-Stage n [] c a ts u l h = absurd (omega arith)
kept-Stage n (none ∷ ps) c a ts u l h = absurd h
kept-Stage n (some i ∷ []) c a ts u l (k, b, p) = absurd (omega arith)
kept-Stage n (some i ∷ (q ∷ ps)) c a ts u l (b, (d, k, p)) =
    (omega arith, (d, k, PointsInto-put i n d ts u b p))

seat-IsStage :
    (e : Environment) (n : ℕ) (m : TrackerManager) {t : Tracker} (u : Tracker)
    → e.grow 0 ≡ 1
    → get n m ≡ some t
    → IsStage n m
    → IsStage (suc n) (seat e n m u)
unfolding seat push_back
seat-IsStage e n m u one f h = elim (Bool-cases (leb m.capacity (length m.manager_space))) [
  | inl c ↦ rw c (
      moved-Stage (e.grow m.capacity) n m.manager_space m.capacity m.allocation
        m.tracker_connections u (λ z. ap e.grow z ∙ one) f h)
  | inr c ↦ rw c (
      kept-Stage n m.manager_space m.capacity m.allocation m.tracker_connections
        (at_back n m.manager_space m.allocation u) (ground arith) h)
]

map-Goes :
    (e : Environment) (n : ℕ) (m : TrackerManager) {t : Tracker} (o : Option Tracker)
    → e.grow 0 ≡ 1
    → get n m ≡ some t
    → IsStage n m
    → Goes (suc n) (Option.map (seat e n m) o)
map-Goes e n m none one f h = tt
map-Goes e n m (some u) one f h = seat-IsStage e n m u one f h

Goes-if :
    (n : ℕ) (b : Bool) (x y : Option TrackerManager)
    → Goes n x
    → Goes n y
    → Goes n (if b then x else y)
Goes-if n true x y h k = h
Goes-if n false x y h k = k

populate_tracker-Goes :
    (e : Environment) (n : ℕ) (m : TrackerManager)
    → e.grow 0 ≡ 1
    → IsStage n m
    → Goes (suc n) (populate_tracker e n m)
unfolding populate_tracker
populate_tracker-Goes e n m one h = elim (Option-cases (get n m)) [
  | inl f ↦ rw f tt
  | inr (t, f) ↦ rw f (
      Goes-if (suc n) t.has_http
        (Option.map (seat e n m) (seek_http (suc (length t.announce_urls)) t))
        (some (record m { trkrs_in_trkrspace = decrement m.trkrs_in_trkrspace }))
        (map-Goes e n m (seek_http (suc (length t.announce_urls)) t) one f h)
        (Stage-suc n m.manager_space m.capacity m.allocation m.tracker_connections h))
]

pub populate_from-Goes :
    (e : Environment) (k n : ℕ) (m : TrackerManager)
    → e.grow 0 ≡ 1
    → IsStage n m
    → Goes (n + k) (populate_from e k n m)
unfolding populate_from
populate_from-Goes e zero n m one h =
    subst (λ i. IsStage i m) (let q : n ≡ n + 0 = omega arith in q) h
populate_from-Goes e (suc k) n m one h =
    next (populate_tracker e n m) (populate_tracker-Goes e n m one h) (λ m' h'.
      subst (λ i. Goes i (populate_from e k (suc n) m'))
        (let q : suc n + k ≡ n + suc k = omega arith in q)
        (populate_from-Goes e k (suc n) m' one h'))
  where
    next :
        (o : Option TrackerManager)
        → Goes (suc n) o
        → ((m' : TrackerManager)
            → IsStage (suc n) m'
            → Goes (n + suc k) (populate_from e k (suc n) m'))
        → Goes (n + suc k) (o >>= populate_from e k (suc n))
    next none g f = tt
    next (some m') g f = f m' g
