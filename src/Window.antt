-- ===== src/Window.antt =====
-- Windows: the bytes of an array from an index on, going round at its end.
use bittorrent_application_l.Base.{
  ℕ, zero, suc, ◌+◌, ◌-◌, ◌%◌, ◌≤◌, ◌<◌, ◌≡◌, refl, sym, append_assoc, ap, ap₂, ◌∙◌, ◌≢◌, List, [],
  ◌∷◌, ◌++◌, arith, dec_lt, ◌⊎◌, inl, inr, length, get_or, set, take, drop, get_or-set_self,
  get_or-set_ne, length-set, take_congr, drop_of_le, append-nil, mod-eq_of_lt, mod-add-mod,
  mod-eq-sub-mod,
}
use native.Mathlib.Nat.{suc-mod, mod_self}

-- Where the end of the data stands: ahead of the start, or behind it after going round.
pub end_cases :
    (n h k : ℕ)
    → h < n
    → k ≤ n
    → ((h + k < n) × ((h + k) % n ≡ h + k)) ⊎ ((n ≤ h + k) × ((h + k) % n ≡ h + k - n))
end_cases n h k hn kn = elim (dec_lt (h + k) n) [
  | yes p ↦ inl (p, mod-eq_of_lt p)
  | no p ↦ inr (
    omega arith,
    omega (
      arith,
      mod-eq-sub-mod {n = h + k} {m = n} (omega arith),
      mod-eq_of_lt {n = h + k - n} {m = n} (omega arith),
    ),
  )
]

-- memcpy to an offset of an array.
abbrev pub write_at {ℓ} : {A : Type ℓ} → List A → ℕ → List A → List A
write_at buf i [] = buf
write_at buf i (b ∷ bs) = write_at (set buf i b) (suc i) bs

pub length-write_at {ℓ} :
    {A : Type ℓ} (buf : List A) (i : ℕ) (bs : List A) → length (write_at buf i bs) ≡ length buf
length-write_at buf i [] = refl
length-write_at buf i (b ∷ bs) = length-write_at (set buf i b) (suc i) bs ∙ length-set buf i b

write_at-cons {ℓ} :
    {A : Type ℓ} (x : A) (buf : List A) (i : ℕ) (bs : List A)
    → write_at (x ∷ buf) (suc i) bs ≡ x ∷ write_at buf i bs
write_at-cons x buf i [] = refl
write_at-cons x buf i (b ∷ bs) = write_at-cons x (set buf i b) (suc i) bs

-- A copy over the whole array replaces it.
pub write_at_all {ℓ} :
    {A : Type ℓ} (buf bs : List A) → length bs ≡ length buf → write_at buf 0 bs ≡ bs
write_at_all [] [] e = refl
write_at_all [] (b ∷ bs) e = absurd (omega arith)
write_at_all (x ∷ buf) [] e = absurd (omega arith)
write_at_all (x ∷ buf) (b ∷ bs) e =
    write_at-cons b buf 0 bs ∙ ap (◌∷◌ b) (write_at_all buf bs (omega arith))

-- Two copies in a row are one.
pub write_at-append {ℓ} :
    {A : Type ℓ} (buf : List A) (i : ℕ) (bs cs : List A)
    → write_at (write_at buf i bs) (i + length bs) cs ≡ write_at buf i (bs ++ cs)
write_at-append buf i [] cs = ap (λ k. write_at buf k cs) (let q : i + 0 ≡ i = omega arith in q)
write_at-append buf i (b ∷ bs) cs =
    ap (λ k. write_at (write_at (set buf i b) (suc i) bs) k cs)
      (let q : i + suc (length bs) ≡ suc i + length bs = omega arith in q)
    ∙ write_at-append (set buf i b) (suc i) bs cs

module _ {ℓ} {A : Type ℓ} (d : A) (n : ℕ) where
  abbrev pub window : List A → ℕ → ℕ → List A
  window buf h zero = []
  window buf h (suc k) = get_or buf h d ∷ window buf (suc h % n) k

  pub length-window : (buf : List A) (h k : ℕ) → length (window buf h k) ≡ k
  length-window buf h zero = refl
  length-window buf h (suc k) = ap suc (length-window buf (suc h % n) k)

  pub window_congr :
      (buf : List A) (h h' k k' : ℕ) → h ≡ h' → k ≡ k' → window buf h k ≡ window buf h' k'
  window_congr buf h h' k k' e f = ap₂ (window buf) e f

  -- A step round the ring, and then j more.
  pub around : (h j : ℕ) → (suc h % n + j) % n ≡ (h + suc j) % n
  around h j = mod-add-mod (suc h) n j ∙ ap (λ x. x % n) (omega arith)

  -- Dropping from the front moves the start.
  pub drop-window :
      (buf : List A) (h j k : ℕ)
      → h < n
      → j ≤ k
      → drop j (window buf h k) ≡ window buf ((h + j) % n) (k - j)
  drop-window buf h zero k hn le =
      window_congr buf h ((h + 0) % n) k (k - 0)
        (omega (arith, mod-eq_of_lt {n = h + 0} {m = n} (omega arith))) (omega arith)
  drop-window buf h (suc j) zero hn le = absurd (omega arith)
  drop-window buf h (suc j) (suc k) hn le =
      drop-window buf (suc h % n) j k (omega arith) (omega arith)
      ∙ window_congr buf ((suc h % n + j) % n) ((h + suc j) % n) (k - j) (suc k - suc j)
          (around h j) (omega arith)

  -- The last element of a window.
  pub window_snoc :
      (buf : List A) (h k : ℕ)
      → h < n
      → window buf h (suc k) ≡ window buf h k ++ (get_or buf ((h + k) % n) d ∷ [])
  window_snoc buf h zero hn =
      ap (λ i. get_or buf i d ∷ [])
        (sym (mod-eq_of_lt hn) ∙ ap (λ i. i % n) (let q : h ≡ h + 0 = omega arith in q))
  window_snoc buf h (suc k) hn = ap (◌∷◌ (get_or buf h d)) (
      window_snoc buf (suc h % n) k (omega arith)
      ∙ ap (λ i. window buf (suc h % n) k ++ (get_or buf i d ∷ [])) (around h k))

  -- No index inside a window of fewer than n bytes is the index just past it.
  past_ne : (h k : ℕ) → h < n → suc k < n → (h + suc k) % n ≢ h
  past_ne h k hn kn e = elim (dec_lt (h + suc k) n) [
    | yes p ↦ absurd (omega (arith, mod-eq_of_lt p))
    | no p ↦ absurd (
        omega (
          arith,
          mod-eq-sub-mod {n = h + suc k} {m = n} (omega arith),
          mod-eq_of_lt {n = h + suc k - n} {m = n} (omega arith),
        ))
  ]

  -- Writing the byte just past a window extends it.
  pub window-set_past :
      (buf : List A) (h k i : ℕ) (b : A)
      → n ≤ length buf
      → h < n
      → k < n
      → i ≡ (h + k) % n
      → window (set buf i b) h (suc k) ≡ window buf h k ++ (b ∷ [])
  window-set_past buf h zero i b room hn kn e =
      let at : i ≡ h = omega (arith, mod-eq_of_lt {n = h + 0} {m = n} (omega arith)) in
      rw (at, get_or-set_self buf h b d (omega arith))
  window-set_past buf h (suc k) i b room hn kn e =
      ap₂ ◌∷◌ (get_or-set_ne buf i h b d (λ q. past_ne h k hn kn (sym e ∙ q))) (
        window-set_past buf (suc h % n) k i b room (omega arith) (omega arith)
          (e ∙ sym (around h k)))

  -- A copy that fits between the end of the window and the end of the array extends the window.
  pub window-write_at :
      (bs buf : List A) (h k i : ℕ)
      → n ≤ length buf
      → h < n
      → k + length bs ≤ n
      → i + length bs ≤ n
      → i ≡ (h + k) % n
      → window (write_at buf i bs) h (k + length bs) ≡ window buf h k ++ bs
  window-write_at [] buf h k i room hn kn fits e =
      window_congr buf h h (k + 0) k refl (omega arith) ∙ sym (append-nil (window buf h k))
  window-write_at (b ∷ []) buf h k i room hn kn fits e =
      window_congr (set buf i b) h h (k + 1) (suc k) refl (omega arith)
      ∙ window-set_past buf h k i b room hn (omega arith) e
  window-write_at (b ∷ c ∷ bs) buf h k i room hn kn fits e =
      window_congr (write_at (set buf i b) (suc i) (c ∷ bs)) h h (k + length (b ∷ c ∷ bs))
        (suc k + length (c ∷ bs)) refl (omega arith)
      ∙ window-write_at (c ∷ bs) (set buf i b) h (suc k) (suc i) (omega (arith, length-set buf i b))
          hn (omega arith) (omega arith) next
      ∙ ap (λ w. w ++ (c ∷ bs)) (window-set_past buf h k i b room hn (omega arith) e)
      ∙ append_assoc (window buf h k) (b ∷ []) (c ∷ bs)
    where
      next : suc i ≡ (h + suc k) % n
      next =
          sym (mod-eq_of_lt {n = suc i} {m = n} (omega arith))
          ∙ ap (λ x. suc x % n) e
          ∙ sym (suc-mod (h + k) n)
          ∙ ap (λ x. x % n) (let q : suc (h + k) ≡ h + suc k = omega arith in q)

  drop-cons :
      (buf : List A) (h : ℕ) → h < length buf → drop h buf ≡ get_or buf h d ∷ drop (suc h) buf
  drop-cons [] h lt = elim lt [ ]
  drop-cons (x ∷ buf) zero lt = refl
  drop-cons (x ∷ buf) (suc h) lt = drop-cons buf h (omega arith)

  -- A window that does not pass the end of the array is a slice of it.
  pub window_linear :
      (buf : List A) (h k : ℕ) → length buf ≡ n → h + k ≤ n → window buf h k ≡ take k (drop h buf)
  window_linear buf h zero e fits = refl
  window_linear buf h (suc zero) e fits = rw (drop-cons buf h (omega arith))
  window_linear buf h (suc (suc k)) e fits =
      rw (drop-cons buf h (omega arith), mod-eq_of_lt {n = suc h} {m = n} (omega arith))
        (ap (◌∷◌ (get_or buf h d)) (window_linear buf (suc h) (suc k) e (omega arith)))

  -- A window that passes the end is the array from its start on, and a piece of its beginning.
  pub window_wrapped :
      (buf : List A) (h k : ℕ)
      → length buf ≡ n
      → h < n
      → k ≤ n
      → n ≤ h + k
      → window buf h k ≡ drop h buf ++ take (h + k - n) buf
  window_wrapped buf h zero e hn kn over = absurd (omega arith)
  window_wrapped buf h (suc k) e hn kn over = elim (dec_lt (suc h) n) [
    | yes p ↦
        rw (drop-cons buf h (omega arith), mod-eq_of_lt {n = suc h} {m = n} p)
          (ap (◌∷◌ (get_or buf h d)) (
            window_wrapped buf (suc h) k e p (omega arith) (omega arith)
            ∙ ap (◌++◌ (drop (suc h) buf))
                (take_congr (suc h + k - n) (h + suc k - n) buf (omega arith))))
    | no p ↦
        rw (drop-cons buf h (omega arith), drop_of_le (suc h) buf (omega arith))
          (ap (◌∷◌ (get_or buf h d)) (
            window_congr buf (suc h % n) 0 k k
              (ap (λ x. x % n) (let q : suc h ≡ n = omega arith in q) ∙ mod_self n) refl
            ∙ window_linear buf 0 k e (omega arith)
            ∙ take_congr k (h + suc k - n) buf (omega arith)))
  ]
