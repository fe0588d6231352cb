-- ===== src/Tracker/Quiet.antt =====
-- No tracker ever has a second timer: an invariant of every event.
use bittorrent_application_l.Base.{
  ℕ, suc, zero, ◌<◌, ◌≡◌, refl, sym, subst, inl, inr, true, ◌&&◌, Option, none, some, List, [], ◌∷◌,
  ◌++◌, ℤ, length, set, ◌>>=◌, ltb, leb, ◌==◌, Bool-cases, Option-cases,
}
use bittorrent_application_l.Bencode.{Text}
use bittorrent_application_l.Tracker.{Tracker, TrackerManager, Environment, decrement, increment}
use bittorrent_application_l.Tracker.Url.{add_url, initiatlize_trackers, get_hostname}
use bittorrent_application_l.Bencode.Find.{equal}
use bittorrent_application_l.Tracker.Space.{
  get, put, write_cell, adjust_count, return_to_manager_space, send_to_protocol_space, push_back,
  shrink_to_fit,
}
use bittorrent_application_l.Tracker.Connections.{
  AreAll, tracker_of-AreAll, put_tracker-AreAll, length-put_tracker,
}

-- One timer only, and the other not running.
abbrev pub IsSingle : Tracker → Type 0
IsSingle t = (t.only_one_timer ≡ true) × (t.min_timer_w ≡ none)

abbrev pub AreSingle : List (Text × Tracker) → Type 0
AreSingle = AreAll IsSingle

-- A pointer to one of `n` trackers, or null.
abbrev pub IsPointer : ℕ → Option ℕ → Type 0
IsPointer n none = Unit {0}
IsPointer n (some i) = i < n

abbrev pub ArePointers : ℕ → List (Option ℕ) → Type 0
ArePointers n [] = Unit {0}
ArePointers n (p ∷ ps) = IsPointer n p × ArePointers n ps

abbrev pub IsQuiet : TrackerManager → Type 0
IsQuiet m =
    AreSingle m.tracker_connections × ArePointers (length m.tracker_connections) m.manager_space

-- So if the step has a result.
abbrev pub Stays : Option TrackerManager → Type 0
Stays none = Unit {0}
Stays (some m) = IsQuiet m

pub Stays-bind :
    (o : Option TrackerManager) (f : TrackerManager → Option TrackerManager)
    → Stays o
    → ((m : TrackerManager) → IsQuiet m → Stays (f m))
    → Stays (o >>= f)
Stays-bind none f h k = tt
Stays-bind (some m) f h k = k m h

pub Stays-any :
    {A : Type 0} (o : Option A) (f : A → Option TrackerManager)
    → ((a : A) → Stays (f a))
    → Stays (o >>= f)
Stays-any none f k = tt
Stays-any (some a) f k = k a

pub put-IsQuiet :
    (i : ℕ) (u : Tracker) (m : TrackerManager) → IsQuiet m → IsSingle u → IsQuiet (put i u m)
put-IsQuiet i u m (h, p) s = (
  put_tracker-AreAll IsSingle m.tracker_connections i u h s,
  subst (λ n. ArePointers n m.manager_space) (sym (length-put_tracker m.tracker_connections i u)) p,
)

-- A step that begins with a look at a tracker.
pub Stays-get :
    (i : ℕ) (m : TrackerManager) (f : Tracker → Option TrackerManager)
    → IsQuiet m
    → ((t : Tracker) → IsSingle t → i < length m.tracker_connections → Stays (f t))
    → Stays (get i m >>= f)
Stays-get i m f (h, p) k = elim (Option-cases (get i m)) [
  | inl e ↦ rw e tt
  | inr (t, e) ↦
      let (s, l) = tracker_of-AreAll IsSingle m.tracker_connections i h e in rw e (k t s l)
]

set-ArePointers :
    (n : ℕ) (ps : List (Option ℕ)) (j : ℕ) (v : Option ℕ)
    → ArePointers n ps
    → IsPointer n v
    → ArePointers n (set ps j v)
set-ArePointers n [] j v h k = tt
set-ArePointers n (p ∷ ps) zero v (a, h) k = (k, h)
set-ArePointers n (p ∷ ps) (suc j) v (a, h) k = (a, set-ArePointers n ps j v h k)

append-ArePointers :
    (n : ℕ) (ps : List (Option ℕ)) (v : Option ℕ)
    → ArePointers n ps
    → IsPointer n v
    → ArePointers n (ps ++ (v ∷ []))
append-ArePointers n [] v h k = (k, tt)
append-ArePointers n (p ∷ ps) v (a, h) k = (a, append-ArePointers n ps v h k)

write_cell-Stays :
    (q : Option (ℕ × ℕ)) (v : Option ℕ) (m : TrackerManager)
    → IsQuiet m
    → IsPointer (length m.tracker_connections) v
    → Stays (write_cell q v m)
unfolding write_cell
write_cell-Stays none v m h k = tt
write_cell-Stays (some (a, j)) v m (h, p) k =
    elim (Bool-cases (a == m.allocation && ltb j (length m.manager_space))) [
      | inl e ↦ rw e (h, set-ArePointers (length m.tracker_connections) m.manager_space j v p k)
      | inr e ↦ rw e tt
    ]

adjust_count-Stays :
    (t : Tracker) (f : ℤ → ℤ) (m : TrackerManager) → IsQuiet m → Stays (adjust_count t f m)
unfolding adjust_count
adjust_count-Stays t f m h = elim (Bool-cases t.trkrs_in_trkrspace_ref) [
  | inl e ↦ rw e h
  | inr e ↦ rw e tt
]

pub return_to_manager_space-Stays :
    (i : ℕ) (m : TrackerManager) → IsQuiet m → Stays (return_to_manager_space i m)
unfolding return_to_manager_space
return_to_manager_space-Stays i m h = Stays-get i m _ h λ t s l.
    Stays-bind (write_cell t.queue_ptr (some i) m) (adjust_count t increment)
      (write_cell-Stays t.queue_ptr (some i) m h l) (λ m' h'. adjust_count-Stays t increment m' h')

pub send_to_protocol_space-Stays :
    (i : ℕ) (m : TrackerManager) → IsQuiet m → Stays (send_to_protocol_space i m)
unfolding send_to_protocol_space
send_to_protocol_space-Stays i m h = Stays-get i m _ h λ t s l.
    Stays-bind (write_cell t.queue_ptr none m) (adjust_count t decrement)
      (write_cell-Stays t.queue_ptr none m h tt) (λ m' h'. adjust_count-Stays t decrement m' h')

pub push_back-IsQuiet :
    (e : Environment) (v : Option ℕ) (m : TrackerManager)
    → IsQuiet m
    → IsPointer (length m.tracker_connections) v
    → IsQuiet (push_back e v m)
unfolding push_back
push_back-IsQuiet e v m (h, p) k =
    let q = append-ArePointers (length m.tracker_connections) m.manager_space v p k in
    elim (Bool-cases (leb m.capacity (length m.manager_space))) [
      | inl c ↦ rw c (h, q)
      | inr c ↦ rw c (h, q)
    ]

pub shrink_to_fit-IsQuiet : (m : TrackerManager) → IsQuiet m → IsQuiet (shrink_to_fit m)
unfolding shrink_to_fit
shrink_to_fit-IsQuiet m h = elim (Bool-cases (ltb (length m.manager_space) m.capacity)) [
  | inl c ↦ rw c h
  | inr c ↦ rw c h
]

add_url-AreSingle :
    (key url : Text) (ts : List (Text × Tracker)) → AreSingle ts → AreSingle (add_url key url ts)
unfolding add_url
add_url-AreSingle key url [] h = ((refl, refl), tt)
add_url-AreSingle key url ((k, t) ∷ ts) (s, h) = elim (Bool-cases (equal k key)) [
  | inl e ↦ rw e (s, h)
  | inr e ↦ rw e (s, add_url-AreSingle key url ts h)
]

abbrev MakeSingle : Option (List (Text × Tracker)) → Type 0
MakeSingle none = Unit {0}
MakeSingle (some ts) = AreSingle ts

initiatlize_trackers-MakeSingle :
    (urls : List Text) (ts : List (Text × Tracker))
    → AreSingle ts
    → MakeSingle (initiatlize_trackers urls ts)
unfolding initiatlize_trackers
initiatlize_trackers-MakeSingle [] ts h = h
initiatlize_trackers-MakeSingle (url ∷ urls) ts h = elim (Option-cases (get_hostname url)) [
  | inl e ↦ rw e tt
  | inr (key, e) ↦
      rw e
        (initiatlize_trackers-MakeSingle urls (add_url key url ts) (add_url-AreSingle key url ts h))
]

-- The trackers that the urls make.
pub initiatlize_trackers-AreSingle :
    (urls : List Text) {ts : List (Text × Tracker)}
    → initiatlize_trackers urls [] ≡ some ts
    → AreSingle ts
initiatlize_trackers-AreSingle urls e =
    subst MakeSingle e (initiatlize_trackers-MakeSingle urls [] tt)
