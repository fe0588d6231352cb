-- ===== src/Tracker/Grouping.antt =====
-- The trackers of a list of urls, by their host names.
use bittorrent_application_l.Base.{
  ◌≡◌, refl, sym, ap, ◌∙◌, inl, inr, Bool, true, false, ◌||◌, Option, none, some, List, [], ◌∷◌,
  ◌++◌, append_assoc, append-nil, arith, if◌then◌else◌, Bool-cases,
}
use bittorrent_application_l.Bencode.{Text}
use bittorrent_application_l.Bencode.Find.{equal}
use bittorrent_application_l.Tracker.{Tracker, tracker}
use bittorrent_application_l.Tracker.Url.{add_url, initiatlize_trackers, get_hostname}

equal_refl : (s : Text) → equal s s ≡ true
unfolding equal
equal_refl [] = refl
equal_refl (c ∷ s) = let e = equal_refl s in ground arith

equal_eq : (s t : Text) → equal s t ≡ true → s ≡ t
unfolding equal
equal_eq [] [] e = refl
equal_eq [] (d ∷ t) e = cc
equal_eq (c ∷ s) [] e = cc
equal_eq (c ∷ s) (d ∷ t) e =
    let h : c ≡ d = ground arith in
    let q : equal s t ≡ true = ground arith in ap (λ a. a ∷ s) h ∙ ap (λ a. d ∷ a) (equal_eq s t q)

-- The urls of the tracker with a key.
unfoldable pub urls_of : Text → List (Text × Tracker) → List Text
urls_of key [] = []
urls_of key ((k, t) ∷ ts) = if equal k key then t.announce_urls else urls_of key ts

abbrev is_key : Text → Option Text → Bool
is_key key none = false
is_key key (some k) = equal k key

-- The urls of a host, in order.
unfoldable pub of_host : Text → List Text → List Text
of_host key [] = []
of_host key (u ∷ us) = if is_key key (get_hostname u) then u ∷ of_host key us else of_host key us

abbrev one_if : Bool → Text → List Text
one_if true u = u ∷ []
one_if false u = []

-- Equal keys are the same for any third.
equal_left : (j k key : Text) → equal j k ≡ true → equal k key ≡ equal j key
equal_left j k key e = ap (λ x. equal x key) (sym (equal_eq j k e))

equal_apart : (j k key : Text) → equal j k ≡ false → equal j key ≡ true → equal k key ≡ false
equal_apart j k key e f = elim (Bool-cases (equal k key)) [
  | inl g ↦
      let q : j ≡ k = equal_eq j key f ∙ sym (equal_eq k key g) in
      let h : equal j k ≡ true = ap (λ x. equal j x) (sym q) ∙ equal_refl j in cc
  | inr g ↦ g
]

urls_of-add_url :
    (key k u : Text) (ts : List (Text × Tracker))
    → urls_of key (add_url k u ts) ≡ urls_of key ts ++ one_if (equal k key) u
unfolding urls_of add_url tracker
urls_of-add_url key k u [] = elim (Bool-cases (equal k key)) [
  | inl e ↦ rw e refl
  | inr e ↦ rw e refl
]
urls_of-add_url key k u ((j, t) ∷ ts) = elim (Bool-cases (equal j k)) [
  | inl e ↦ elim (Bool-cases (equal j key)) [
    | inl f ↦ rw (e, f, equal_left j k key e ∙ f) refl
    | inr f ↦ rw (e, f, equal_left j k key e ∙ f) (sym (append-nil (urls_of key ts)))
  ]
  | inr e ↦ elim (Bool-cases (equal j key)) [
    | inl f ↦ rw (e, f, equal_apart j k key e f) (sym (append-nil t.announce_urls))
    | inr f ↦ rw (e, f) (urls_of-add_url key k u ts)
  ]
]

abbrev has_key : Text → List (Text × Tracker) → Bool
has_key key [] = false
has_key key ((k, t) ∷ ts) = equal k key || has_key key ts

-- No two trackers have one key.
abbrev pub AreApart : List (Text × Tracker) → Type 0
AreApart [] = Unit {0}
AreApart ((k, t) ∷ ts) = (has_key k ts ≡ false) × AreApart ts

has_key-add_url :
    (key k u : Text) (ts : List (Text × Tracker))
    → equal k key ≡ false
    → has_key key ts ≡ false
    → has_key key (add_url k u ts) ≡ false
unfolding add_url
has_key-add_url key k u [] e h = rw e refl
has_key-add_url key k u ((j, t) ∷ ts) e h = elim (Bool-cases (equal j k)) [
  | inl f ↦ rw f h
  | inr f ↦
      let g : equal j key ≡ false = ground arith in
      let r : has_key key ts ≡ false = ground arith in rw (f, g) (has_key-add_url key k u ts e r)
]

add_url-AreApart :
    (k u : Text) (ts : List (Text × Tracker)) → AreApart ts → AreApart (add_url k u ts)
unfolding add_url
add_url-AreApart k u [] h = (refl, tt)
add_url-AreApart k u ((j, t) ∷ ts) (h, a) = elim (Bool-cases (equal j k)) [
  | inl e ↦ rw e (h, a)
  | inr e ↦
      rw e
        (has_key-add_url j k u ts (equal_apart j k j e (equal_refl j)) h, add_url-AreApart k u ts a)
]

-- Each url has a host name.
abbrev pub AreHosted : List Text → Type 0
AreHosted [] = Unit {0}
AreHosted (u ∷ us) = ((k : Text) × (get_hostname u ≡ some k)) × AreHosted us

of_host-cons :
    (key k u : Text) (us : List Text)
    → get_hostname u ≡ some k
    → of_host key (u ∷ us) ≡ one_if (equal k key) u ++ of_host key us
unfolding of_host
of_host-cons key k u us e = elim (Bool-cases (equal k key)) [
  | inl f ↦ rw (e, f) refl
  | inr f ↦ rw (e, f) refl
]

-- Urls with host names are put to the trackers of their hosts, in order.
pub initiatlize_trackers-of_host :
    (key : Text) (urls : List Text) (ts : List (Text × Tracker))
    → AreHosted urls
    → AreApart ts
    → (ts' : List (Text × Tracker)) × (initiatlize_trackers urls ts ≡ some ts')
      × AreApart ts'
      × (urls_of key ts' ≡ urls_of key ts ++ of_host key urls)
unfolding initiatlize_trackers of_host
initiatlize_trackers-of_host key [] ts h a = (ts, refl, a, sym (append-nil (urls_of key ts)))
initiatlize_trackers-of_host key (u ∷ us) ts ((k, e), h) a =
    let (ts', q, b, p) =
      initiatlize_trackers-of_host key us (add_url k u ts) h (add_url-AreApart k u ts a) in
    (
      ts',
      rw e q,
      b,
      p
          ∙ ap (λ x. x ++ of_host key us) (urls_of-add_url key k u ts)
          ∙ append_assoc (urls_of key ts) (one_if (equal k key) u) (of_host key us)
          ∙ ap (λ x. urls_of key ts ++ x) (sym (of_host-cons key k u us e)),
    )
