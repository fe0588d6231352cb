-- ===== src/OverwritableCache.antt =====
-- src/Client/overwritable_cache.hpp: a fixed array that keeps the newest N values and gives them
-- back from either end. N is the first argument of each operation.
pub mod Deque
mod Tests
use bittorrent_application_l.Base.{
  ℕ, Bool, ltb, ◌==◌, if◌then◌else◌, List, Option, none, some, get_or, set, add_size, sub_size,
}

pub record Cache {ℓ} (A : Type ℓ) : Type ℓ where
  pub cache : List A
  pub write : ℕ
  pub read : ℕ
  pub size : ℕ

unfoldable pub plus_mask : ℕ → ℕ → ℕ
plus_mask n num = if add_size num 1 == n then 0 else add_size num 1

unfoldable pub minus_mask : ℕ → ℕ → ℕ
minus_mask n num = if num == 0 then sub_size n 1 else sub_size num 1

-- The array's elements are there from the start: `d` is what a default-constructed one holds.
module _ {ℓ} {A : Type ℓ} (d : A) (n : ℕ) where
  unfoldable pub isempty : Cache A → Bool
  isempty c = c.size == 0

  unfoldable pub push : Cache A → A → Cache A
  push c val =
      let write' = plus_mask n c.write in
      let cache' = set c.cache c.write val in
      if ltb c.size n
      then record c { cache = cache'; write = write'; size = add_size c.size 1 }
      else record c { cache = cache'; write = write'; read = plus_mask n c.read }

  -- `none` is the return of `false`, which leaves the argument alone.
  unfoldable pub stale_pop : Cache A → Option A × Cache A
  unfolding isempty
  stale_pop c = if isempty c then (none, c) else (
    some (get_or c.cache c.read d),
    record c { size = sub_size c.size 1; read = plus_mask n c.read },
  )

  unfoldable pub fresh_pop : Cache A → Option A × Cache A
  unfolding isempty
  fresh_pop c =
      let write' = minus_mask n c.write in
      if isempty c
      then (none, c)
      else (some (get_or c.cache write' d), record c { write = write'; size = sub_size c.size 1 })
