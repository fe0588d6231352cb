-- ===== src/TcpBuffer/Counts.antt =====
-- How many bytes wait in the old ring buffer.
use bittorrent_application_l.Base.{
  ℕ, ◌+◌, ◌-◌, ◌%◌, ◌^◌, ◌≤◌, ◌<◌, ◌≡◌, ◌∙◌, arith, ltb, ◌==◌, if◌then◌else◌, dec_lt, lt→ltb,
  le→ltb_false, mod-eq_of_lt, mod-eq-sub-mod,
}
use bittorrent_application_l.TcpBuffer.{
  TcpBuffer, Ost, read_action, write_action, was_read, r_available, w_available,
}

pub record IsValid (n : ℕ) (b : TcpBuffer) : Type 0 where
  pub small : n ≤ 2 ^ 63
  pub read_in : b.read < n
  pub write_in : b.write < n

-- The number of bytes between the two indices.
abbrev pub waiting : ℕ → Ost → ℕ → ℕ → ℕ
waiting n act r w =
    if r == w then (if was_read act then 0 else n) else if ltb r w then w - r else n - r + w

pub waiting-le : (n : ℕ) (act : Ost) (r w : ℕ) → r < n → w < n → waiting n act r w ≤ n
waiting-le n act r w h k = ground arith

pub r_available-waiting :
    (n : ℕ) (b : TcpBuffer) → IsValid n b → r_available n b ≡ waiting n b.prev_action b.read b.write
unfolding r_available
r_available-waiting n b v = ground arith

pub w_available-waiting :
    (n : ℕ) (b : TcpBuffer)
    → IsValid n b
    → w_available n b ≡ n - waiting n b.prev_action b.read b.write
unfolding w_available
w_available-waiting n b v = ground arith

pub cyclic :
    (n i k : ℕ) → i < n → k ≤ n → (i + k) % n ≡ (if ltb (i + k) n then i + k else i + k - n)
cyclic n i k h l = elim (dec_lt (i + k) n) [
  | yes p ↦ rw (lt→ltb (i + k) n p) (mod-eq_of_lt p)
  | no p ↦
      rw (le→ltb_false (i + k) n (omega arith))
        (mod-eq-sub-mod (omega arith) ∙ mod-eq_of_lt (let q : i + k - n < n = omega arith in q))
]

pub waiting-write :
    (n : ℕ) (act : Ost) (r w k : ℕ)
    → r < n
    → w < n
    → 0 < k
    → k ≤ n - waiting n act r w
    → waiting n write_action r ((w + k) % n) ≡ waiting n act r w + k
waiting-write n act r w k h l p q =
    rw (cyclic n w k l (omega (arith, waiting-le n act r w h l))) (ground arith)

pub waiting-read :
    (n : ℕ) (act : Ost) (r w k : ℕ)
    → r < n
    → w < n
    → 0 < k
    → k ≤ waiting n act r w
    → waiting n read_action ((r + k) % n) w ≡ waiting n act r w - k
waiting-read n act r w k h l p q =
    rw (cyclic n r k h (omega (arith, waiting-le n act r w h l))) (ground arith)
