-- ===== src/DynamicBitset/Laws.antt =====
-- The bits that `test` reads after `set`, `reset` and `reset_set`.
use bittorrent_application_l.Base.{
  ℕ, zero, suc, ◌-◌, ◌*◌, ◌/◌, ◌%◌, ◌^◌, bit_and, bit_or, ◌≤◌, ◌<◌, ◌≡◌, ◌≢◌, refl, sym, ap, ◌∙◌,
  Bool, true, false, not, ◌==◌, if◌then◌else◌, length, get_or, set, arith, ==-true, ==-false,
  leb-true, leb-false, get_or-set_self, get_or-set_ne, ℕ_discrete, dec_lt,
}
use bittorrent_application_l.Bits.{bit_and_mask}
use bittorrent_application_l.Bits.Or.{bit_and-bit_or, bit_and-bit_or_other}
use bittorrent_application_l.Bits.Clear.{all_but, cleared, cleared_other}
use bittorrent_application_l.DynamicBitset.{Bitset, bit_of, test, set_bit, reset_bit}

-- There are words for all bits.
abbrev pub HasWords : Bitset → Type 0
HasWords b = b.length_ ≤ 64 * length b.bitfield

low_bits : (index : ℕ) → bit_and index 63 ≡ index % 64
low_bits index = bit_and_mask 64 index (omega arith) refl

bit_of-eq : (index : ℕ) → bit_of index ≡ 2 ^ (index % 64)
unfolding bit_of
bit_of-eq index = ap (λ k. 2 ^ k) (low_bits index)

abbrev pub hit : ℕ → ℕ → Bool
hit w j = not (bit_and w (2 ^ (j % 64)) == 0)

-- `test` in range, and out of it.
pub test-in : (b : Bitset) (j : ℕ) → j < b.length_ → test b j ≡ hit (get_or b.bitfield (j / 64) 0) j
unfolding test
test-in b j h =
    rw (test, leb-false b.length_ j h)
      (ap (λ m. not (bit_and (get_or b.bitfield (j / 64) 0) m == 0)) (bit_of-eq j))

pub test-out : (b : Bitset) (j : ℕ) → b.length_ ≤ j → test b j ≡ false
unfolding test
test-out b j h = rw (test, leb-true b.length_ j h) refl

positive : (i : ℕ) → 2 ^ i ≢ 0
positive zero h = absurd (omega arith)
positive (suc i) h = positive i (omega arith)

-- One word is changed by `op`, which sets or clears bit i of it: what `hit` says.
module _ (b : Bitset) (i j w : ℕ) (v : HasWords b) (h : i < b.length_) where
  changed : Bitset
  changed = record b { bitfield = set b.bitfield (i / 64) w }

  elsewhere :
      j / 64 ≢ i / 64 → get_or (set b.bitfield (i / 64) w) (j / 64) 0 ≡ get_or b.bitfield (j / 64) 0
  elsewhere ne = get_or-set_ne b.bitfield (i / 64) (j / 64) w 0 (λ e. ne (sym e))

  there : j / 64 ≡ i / 64 → get_or (set b.bitfield (i / 64) w) (j / 64) 0 ≡ w
  there e =
      ap (λ k. get_or (set b.bitfield (i / 64) w) k 0) e
      ∙ get_or-set_self b.bitfield (i / 64) w 0 (omega arith)

  test-changed :
      (value : Bool)
      → (j % 64 ≡ i % 64 → hit w j ≡ value)
      → (j % 64 ≢ i % 64 → hit w j ≡ hit (get_or b.bitfield (i / 64) 0) j)
      → test changed j ≡ (if j == i then value else test b j)
  unfolding changed
  test-changed value self other = elim (dec_lt j b.length_) [
    | no out ↦
        rw (==-false j i (omega arith))
          (test-out changed j (omega arith) ∙ sym (test-out b j (omega arith)))
    | yes inside ↦ elim (ℕ_discrete (j / 64) (i / 64)) [
      | no apart ↦ rw (==-false j i (λ e. apart (ap (λ k. k / 64) e))) (
          test-in changed j inside ∙ ap (λ x. hit x j) (elsewhere apart) ∙ sym (test-in b j inside))
      | yes word ↦ elim (ℕ_discrete (j % 64) (i % 64)) [
        | yes bit ↦
            rw (==-true j i (omega arith))
              (test-in changed j inside ∙ ap (λ x. hit x j) (there word) ∙ self bit)
        | no apart ↦ rw (==-false j i (λ e. apart (ap (λ k. k % 64) e))) (
            test-in changed j inside
            ∙ ap (λ x. hit x j) (there word)
            ∙ other apart
            ∙ ap (λ k. hit (get_or b.bitfield k 0) j) (sym word)
            ∙ sym (test-in b j inside))
      ]
    ]
  ]

-- `set` in range makes the bit read as set and leaves what `test` reads at every other index.
pub test-set_bit :
    (b : Bitset) (i j : ℕ)
    → HasWords b
    → i < b.length_
    → test (set_bit b i) j ≡ (if j == i then true else test b j)
unfolding set_bit changed
test-set_bit b i j v h =
    rw (set_bit, leb-false b.length_ i h)
      (test-changed b i j (bit_or word (bit_of i)) v h true
        (λ e. ap (λ m. hit (bit_or word m) j) (bit_of-eq i) ∙ self e)
        (λ ne. ap (λ m. hit (bit_or word m) j) (bit_of-eq i) ∙ other ne))
  where
    word : ℕ
    word = get_or b.bitfield (i / 64) 0

    self : j % 64 ≡ i % 64 → hit (bit_or word (2 ^ (i % 64))) j ≡ true
    self e =
        ap (λ k. not (bit_and (bit_or word (2 ^ (i % 64))) (2 ^ k) == 0)) e
        ∙ ap (λ x. not (x == 0)) (bit_and-bit_or (i % 64) word)
        ∙ ap not (==-false (2 ^ (i % 64)) 0 (positive (i % 64)))

    other : j % 64 ≢ i % 64 → hit (bit_or word (2 ^ (i % 64))) j ≡ hit word j
    other ne =
        ap (λ x. not (x == 0)) (bit_and-bit_or_other (i % 64) (j % 64) word (λ e. ne (sym e)))

-- `reset` in range makes the bit read as clear and leaves what `test` reads at every other index.
pub test-reset_bit :
    (b : Bitset) (i j : ℕ)
    → HasWords b
    → i < b.length_
    → test (reset_bit b i) j ≡ (if j == i then false else test b j)
unfolding reset_bit changed
test-reset_bit b i j v h =
    rw (reset_bit, leb-false b.length_ i h)
      (test-changed b i j (bit_and word (2 ^ 64 - 1 - bit_of i)) v h false
        (λ e. ap (λ m. hit (bit_and word (2 ^ 64 - 1 - m)) j) (bit_of-eq i) ∙ self e)
        (λ ne. ap (λ m. hit (bit_and word (2 ^ 64 - 1 - m)) j) (bit_of-eq i) ∙ other ne))
  where
    word : ℕ
    word = get_or b.bitfield (i / 64) 0

    self : j % 64 ≡ i % 64 → hit (bit_and word (all_but 64 (i % 64))) j ≡ false
    self e =
        ap (λ k. not (bit_and (bit_and word (all_but 64 (i % 64))) (2 ^ k) == 0)) e
        ∙ ap (λ x. not (x == 0)) (cleared 64 (i % 64) word (omega arith))

    other : j % 64 ≢ i % 64 → hit (bit_and word (all_but 64 (i % 64))) j ≡ hit word j
    other ne =
        ap (λ x. not (x == 0))
          (cleared_other 64 (i % 64) (j % 64) word (omega arith) (omega arith) (λ e. ne (sym e)))
