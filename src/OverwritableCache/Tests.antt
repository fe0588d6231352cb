-- ===== src/OverwritableCache/Tests.antt =====
-- A cache of two values, written over.
use bittorrent_application_l.Base.{ℕ, ◌≡◌, [], ◌∷◌, arith}
use bittorrent_application_l.OverwritableCache.{Cache, push}
use bittorrent_application_l.OverwritableCache.Deque.{IsValid, contents, push_lem}

abbrev pair : Cache ℕ
pair = record { cache = 6 ∷ 5 ∷ []; write = 1; read = 1; size = 2 }

pair-IsValid : IsValid 2 pair
pair-IsValid = omega arith

push_lem_example : IsValid 2 (push 0 2 pair 7) × (contents 0 2 (push 0 2 pair 7) ≡ 6 ∷ 7 ∷ [])
push_lem_example = push_lem 0 2 pair 7 pair-IsValid
