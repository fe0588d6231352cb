-- ===== src/DynamicBitset/Combining.antt =====
-- The bits that `test` reads after `|=` and `&=`.
use bittorrent_application_l.Base.{
  ℕ, zero, suc, ◌/◌, ◌%◌, ◌^◌, bit_and, bit_or, ◌≤◌, ◌<◌, ◌≡◌, refl, sym, ap, Bool, true, false,
  not, ◌&&◌, ◌||◌, ◌==◌, List, [], ◌∷◌, some, length, get_or, arith, dec_lt,
}
use bittorrent_application_l.Bits.Or.{and_one, and_suc, or_half}
use bittorrent_application_l.Bits.Clear.{and_half}
use bittorrent_application_l.DynamicBitset.{Bitset, test, or_assign, and_assign, combine}
use bittorrent_application_l.DynamicBitset.Laws.{HasWords, test-in, test-out}

-- Bit k of a word.
abbrev is_on : ℕ → ℕ → Bool
is_on w k = not (bit_and w (2 ^ k) == 0)

is_on-suc : (w k : ℕ) → is_on w (suc k) ≡ is_on (w / 2) k
is_on-suc w k = let e = and_suc w k in ground arith

is_on-zero : (w : ℕ) → is_on w 0 ≡ not (w % 2 == 0)
is_on-zero w = ap (λ x. not (x == 0)) (and_one w)

is_on-or : (k w v : ℕ) → is_on (bit_or w v) k ≡ (is_on w k || is_on v k)
is_on-or zero w v =
    let (h, p) = or_half w v in
    rw (is_on-zero (bit_or w v), is_on-zero w, is_on-zero v, p) ground arith
is_on-or (suc k) w v =
    let (h, p) = or_half w v in
    rw (is_on-suc (bit_or w v) k, is_on-suc w k, is_on-suc v k, h) (is_on-or k (w / 2) (v / 2))

is_on-and : (k w v : ℕ) → is_on (bit_and w v) k ≡ (is_on w k && is_on v k)
is_on-and zero w v =
    let (h, p) = and_half w v in
    rw (is_on-zero (bit_and w v), is_on-zero w, is_on-zero v, p) ground arith
is_on-and (suc k) w v =
    let (h, p) = and_half w v in
    rw (is_on-suc (bit_and w v) k, is_on-suc w k, is_on-suc v k, h) (is_on-and k (w / 2) (v / 2))

-- What combining the words leaves, when the other has enough.
abbrev Combined : (ℕ → ℕ → ℕ) → List ℕ → List ℕ → List ℕ → Type 0
Combined op vs ws us = (i : ℕ) → i < length vs → get_or us i 0 ≡ op (get_or vs i 0) (get_or ws i 0)

combine-Combined :
    (op : ℕ → ℕ → ℕ) (vs ws : List ℕ)
    → length vs ≤ length ws
    → (us : List ℕ) × (combine op vs ws ≡ some us) × Combined op vs ws us
unfolding combine
combine-Combined op [] ws l = ([], refl, λ i h. elim h [ ])
combine-Combined op (v ∷ vs) [] l = absurd (omega arith)
combine-Combined op (v ∷ vs) (w ∷ ws) l =
    let (us, e, c) = combine-Combined op vs ws (omega arith) in
    (op v w ∷ us, rw e refl, extended us c)
  where
    extended : (us : List ℕ) → Combined op vs ws us → Combined op (v ∷ vs) (w ∷ ws) (op v w ∷ us)
    extended us c zero h = refl
    extended us c (suc i) h = c i (omega arith)

test-Combined :
    (op : ℕ → ℕ → ℕ) (on : Bool → Bool → Bool) (b other : Bitset) (us : List ℕ) (j : ℕ)
    → ((k w v : ℕ) → is_on (op w v) k ≡ on (is_on w k) (is_on v k))
    → on false false ≡ false
    → Combined op b.bitfield other.bitfield us
    → HasWords b
    → b.length_ ≡ other.length_
    → test (record b { bitfield = us }) j ≡ on (test b j) (test other j)
test-Combined op on b other us j bits nought c v e = elim (dec_lt j b.length_) [
  | no out ↦
      rw
        (
          test-out (record b { bitfield = us }) j (omega arith),
          test-out b j (omega arith),
          test-out other j (omega arith),
        )
        (sym nought)
  | yes inside ↦
      rw
        (
          test-in (record b { bitfield = us }) j inside,
          test-in b j inside,
          test-in other j (omega arith),
          c (j / 64) (omega arith),
        )
        (bits (j % 64) (get_or b.bitfield (j / 64) 0) (get_or other.bitfield (j / 64) 0))
]

-- Of two bitsets of one length, of which the first has words for its bits and the other at least as
-- many words as the first, `|=` and `&=` succeed, assertions compiled in or out, and `test` then
-- reads at each index the disjunction and the conjunction of what it read in the two.
pub test-assign :
    (ndebug : Bool) (b other : Bitset) (j : ℕ)
    → HasWords b
    → length b.bitfield ≤ length other.bitfield
    → b.length_ ≡ other.length_
    → ((r : Bitset) × (or_assign ndebug b other ≡ some r) × (test r j ≡ (test b j || test other j)))
      × ((r : Bitset) × (and_assign ndebug b other ≡ some r)
          × (test r j ≡ (test b j && test other j)))
unfolding or_assign and_assign
test-assign ndebug b other j v l e =
    let passed : (ndebug || b.length_ == other.length_) ≡ true = ground arith in
    let (us, q, c) = combine-Combined bit_or b.bitfield other.bitfield l in
    let (ws, p, d) = combine-Combined bit_and b.bitfield other.bitfield l in
    (
      (
        record b { bitfield = us },
        rw (passed, q) refl,
        test-Combined bit_or (λ x y. x || y) b other us j is_on-or refl c v e,
      ),
      (
        record b { bitfield = ws },
        rw (passed, p) refl,
        test-Combined bit_and (λ x y. x && y) b other ws j is_on-and refl d v e,
      ),
    )
