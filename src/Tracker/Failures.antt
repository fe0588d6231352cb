-- ===== src/Tracker/Failures.antt =====
-- Failures in a row of a tracker that has an http url.
use bittorrent_application_l.Base.{
  ℕ, suc, zero, ◌+◌, ◌*◌, ◌-◌, ◌^◌, ◌%◌, ◌<◌, ◌≤◌, ◌≡◌, refl, ◌∙◌, ◌⊎◌, inl, inr, true, false,
  Option, none, some, arith, ℤ, pos, negsuc, length, ◌>>=◌, ◌==◌, ==-true, dec_lt,
}
use bittorrent_application_l.Tracker.{Tracker}
use bittorrent_application_l.Tracker.Seek.{seek_http_there}
use bittorrent_application_l.Tracker.Response.{
  fail, first_failed, count_failure, get_retry_seconds, retry_interval, failing,
}

-- `n` failures, one after another.
unfoldable pub fails : ℕ → Tracker → Option Tracker
unfolding fail
fails zero t = some t
fails (suc n) t = fail t >>= fails n

-- The first failed url is not noted yet, or is the present one.
abbrev IsAligned : Tracker → Type 0
IsAligned t =
    (t.failed_url_index ≡ negsuc 0) ⊎ (t.failed_url_index ≡ pos t.current_announce_url_index)

-- The tracker after one more failure.
unfoldable pub failed_once : Tracker → Tracker
failed_once t = record t {
  only_one_timer = true;
  failed_url_index = pos t.current_announce_url_index;
  failure_count = suc t.failure_count;
  active_flag = false;
  interval = pos 5;
  timer_w = some (pos 5);
}

aligned :
    (t : Tracker)
    → IsAligned t
    → first_failed (record t { only_one_timer = true })
      ≡ record t { only_one_timer = true; failed_url_index = pos t.current_announce_url_index }
unfolding first_failed
aligned t h = ground arith

retry_within : (n : ℕ) → n < 5 → (z : ℤ) × (retry_interval n ≡ some z)
unfolding retry_interval
retry_within zero h = (pos 10, refl)
retry_within (suc zero) h = (pos 30, refl)
retry_within (suc (suc zero)) h = (pos (5 * 60), refl)
retry_within (suc (suc (suc zero))) h = (pos (15 * 60), refl)
retry_within (suc (suc (suc (suc zero)))) h = (pos (45 * 60), refl)
retry_within (suc (suc (suc (suc (suc n))))) h = absurd (omega arith)

retry_past : (n : ℕ) → 5 ≤ n → retry_interval n ≡ none
unfolding retry_interval
retry_past (suc (suc (suc (suc (suc n))))) h = refl
retry_past (suc (suc (suc (suc zero)))) h = absurd (omega arith)
retry_past (suc (suc (suc zero))) h = absurd (omega arith)
retry_past (suc (suc zero)) h = absurd (omega arith)
retry_past (suc zero) h = absurd (omega arith)
retry_past zero h = absurd (omega arith)

-- The index that get_retry_seconds reads at, for a count that has just gone up.
get_retry_seconds-failing :
    (t : Tracker)
    → t.failure_count + 1 < 2 ^ 32
    → get_retry_seconds (failing t) ≡ retry_interval t.failure_count
unfolding get_retry_seconds
get_retry_seconds-failing t h =
    let n = t.failure_count in
    let e : (n + 1) % 2 ^ 32 ≡ suc n = omega arith in
    let i : (suc n + 2 ^ 32 - 1 % 5) % 2 ^ 32 ≡ n = omega arith in
    let z : (suc n == 0) ≡ false = ground arith in rw (e, i, z) refl

-- The tracker as do_on_failure counts its failure.
abbrev noted : Tracker → Tracker
noted t = record t { only_one_timer = true; failed_url_index = pos t.current_announce_url_index }

fail-noted :
    (t : Tracker)
    → t.http_mode ≡ true
    → IsAligned t
    → fail t ≡ (
        count_failure (noted t) >>= λ counted.
        some (record counted { interval = pos 5; timer_w = some (pos 5) }))
unfolding fail
fail-noted t h a = rw (aligned t a, seek_http_there (length t.announce_urls) (noted t) h) refl

fail_within :
    (t : Tracker)
    → t.http_mode ≡ true
    → IsAligned t
    → t.failure_count < 5
    → fail t ≡ some (failed_once t)
unfolding failed_once count_failure
fail_within t h a l =
    let (z, r) = retry_within t.failure_count l in
    let e : t.failure_count + 1 ≡ suc t.failure_count = omega arith in
    let c : (t.current_announce_url_index == t.current_announce_url_index) ≡ true =
      ==-true t.current_announce_url_index t.current_announce_url_index refl in
    let w : (t.failure_count + 1) % 2 ^ 32 ≡ suc t.failure_count = omega arith in
    fail-noted t h a ∙ rw (c, get_retry_seconds-failing (noted t) (omega arith), r, w) refl

fail_past :
    (t : Tracker)
    → t.http_mode ≡ true
    → IsAligned t
    → 5 ≤ t.failure_count
    → t.failure_count + 1 < 2 ^ 32
    → fail t ≡ none
unfolding count_failure
fail_past t h a l b =
    let c : (t.current_announce_url_index == t.current_announce_url_index) ≡ true =
      ==-true t.current_announce_url_index t.current_announce_url_index refl in
    fail-noted t h a
    ∙ rw (c, get_retry_seconds-failing (noted t) b, retry_past t.failure_count l) refl

-- What `n` failures make of a tracker.
abbrev pub HasFailed : Tracker → ℕ → Tracker → Type 0
HasFailed t n u =
    (u.current_announce_url_index ≡ t.current_announce_url_index)
    × (u.failure_count ≡ t.failure_count + n)
    × ((n ≡ 0) ⊎ (u.timer_w ≡ some (pos 5)))

fails_within :
    (n : ℕ) (t : Tracker)
    → t.http_mode ≡ true
    → IsAligned t
    → t.failure_count + n ≤ 5
    → (u : Tracker) × (fails n t ≡ some u) × HasFailed t n u
unfolding fails failed_once
fails_within zero t h a l = (t, refl, (refl, omega arith, inl refl))
fails_within (suc n) t h a l =
    let (u, e, (i, c, w)) = fails_within n (failed_once t) h (inr refl) (omega arith) in
    (u, rw (fail_within t h a (omega arith)) e, (i, omega arith, inr (last n u e w)))
  where
    last :
        (k : ℕ) (u : Tracker)
        → fails k (failed_once t) ≡ some u
        → (k ≡ 0) ⊎ (u.timer_w ≡ some (pos 5))
        → u.timer_w ≡ some (pos 5)
    last zero u e w = ground arith
    last (suc k) u e (inl z) = absurd (omega arith)
    last (suc k) u e (inr w) = w

fails_past :
    (n : ℕ) (t : Tracker)
    → t.http_mode ≡ true
    → IsAligned t
    → t.failure_count ≤ 5
    → 5 < t.failure_count + n
    → fails n t ≡ none
unfolding fails failed_once
fails_past zero t h a b l = absurd (omega arith)
fails_past (suc n) t h a b l = elim (dec_lt t.failure_count 5) [
  | yes p ↦
      rw (fail_within t h a p)
        (fails_past n (failed_once t) h (inr refl) (omega arith) (omega arith))
  | no p ↦ rw (fail_past t h a (omega arith) (omega arith)) refl
]

-- A tracker with an http url and no failure yet keeps to that url: up to five failures in a row are
-- counted, and after each it waits for five seconds; a sixth reads past the array of the retry
-- times.
pub fails_lem :
    (t : Tracker) (n k : ℕ)
    → t.http_mode ≡ true
    → t.failed_url_index ≡ negsuc 0
    → t.failure_count ≡ 0
    → n ≤ 5
    → 5 < k
    → ((u : Tracker) × (fails n t ≡ some u) × HasFailed t n u) × (fails k t ≡ none)
fails_lem t n k h a z l m =
    (fails_within n t h (inl a) (omega arith), fails_past k t h (inl a) (omega arith) (omega arith))
