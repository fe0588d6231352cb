-- ===== src/Manager/Discoveries.antt =====
-- The addresses that wait for a connection: the cache after a drain of the discoveries.
use bittorrent_application_l.Base.{
  ℕ, suc, ◌-◌, ◌≤◌, ◌≡◌, refl, sym, ap, ◌∙◌, Bool-cases, inl, inr, true, ◌||◌, ◌==◌, if◌then◌else◌,
  List, [], ◌∷◌, ◌++◌, some, arith, length, drop, drop_congr, drop-drop, drop-append_within,
  length-append, length-drop, append-nil, append_assoc,
}
use bittorrent_application_l.Window.{length-window}
use bittorrent_application_l.OverwritableCache.{Cache, push}
use bittorrent_application_l.OverwritableCache.Deque.{IsValid, contents, push_lem}
use bittorrent_application_l.SlotPool.{available}
use bittorrent_application_l.Manager.State.{
  Manager, Env, get, has_met_connection_quota, send_notification,
}
use bittorrent_application_l.Manager.Scheduler.{no_address, cache_size, push_all, drain_discovered}

-- The last `n` values of a list.
abbrev pub newest {ℓ} : {A : Type ℓ} → ℕ → List A → List A
newest n xs = drop (length xs - n) xs

newest-newest : (n : ℕ) (xs ys : List (List ℕ)) → newest n (newest n xs ++ ys) ≡ newest n (xs ++ ys)
newest-newest n xs ys =
    ap (drop _) (sym (drop-append_within (length xs - n) xs ys (omega arith)))
    ∙ drop-drop _ (length xs - n) (xs ++ ys)
    ∙ drop_congr _ _ (xs ++ ys) (
        omega (
          arith,
          length-append (newest n xs) ys,
          length-append xs ys,
          length-drop (length xs - n) xs,
        ))

newest_short : (n : ℕ) (xs : List (List ℕ)) → length xs ≤ n → newest n xs ≡ xs
newest_short n xs h = drop_congr (length xs - n) 0 xs (omega arith)

abbrev pub cached : Cache (List ℕ) → List (List ℕ)
cached c = contents no_address cache_size c

length-cached : (c : Cache (List ℕ)) → length (cached c) ≡ c.size
length-cached c = length-window no_address cache_size c.cache c.read c.size

push-newest :
    (c : Cache (List ℕ)) (addr : List ℕ)
    → IsValid cache_size c
    → cached (push no_address cache_size c addr) ≡ newest cache_size (cached c ++ (addr ∷ []))
push-newest c addr v =
    (push_lem no_address cache_size c addr v).1
    ∙ sym (
        drop-append_within (suc c.size - cache_size) (cached c) (addr ∷ [])
          (omega (arith, length-cached c, v.size_in)))
    ∙ drop_congr _ _ (cached c ++ (addr ∷ []))
        (omega (arith, length-append (cached c) (addr ∷ []), length-cached c))

-- The loop over the queue keeps the newest addresses, in the order of their arrival.
pub push_all_lem :
    (addrs : List (List ℕ)) (c : Cache (List ℕ))
    → IsValid cache_size c
    → IsValid cache_size (push_all addrs c)
      × (cached (push_all addrs c) ≡ newest cache_size (cached c ++ addrs))
unfolding push_all
push_all_lem [] c v = (
  v,
  sym (newest_short cache_size (cached c) (omega (arith, length-cached c, v.size_in)))
      ∙ ap (newest cache_size) (sym (append-nil (cached c))),
)
push_all_lem (addr ∷ later) c v =
    let pushed = push_lem no_address cache_size c addr v in
    let rest = push_all_lem later (push no_address cache_size c addr) pushed.0 in
    (
      rest.0,
      rest.1
          ∙ ap (λ xs. newest cache_size (xs ++ later)) (push-newest c addr v)
          ∙ newest-newest cache_size (cached c ++ (addr ∷ [])) later
          ∙ ap (newest cache_size) (append_assoc (cached c) (addr ∷ []) later),
    )

-- Draining always ends with the queue empty and the cache valid, holding the 200 newest of the cached
-- and the queued addresses in the order of their arrival; the scheduler is notified exactly when the
-- quota is not met and a slot is free, and otherwise stays as it was.
pub drain_discovered_lem :
    (env : Env) (m : Manager)
    → IsValid cache_size m.cache
    → (m' : Manager) × (drain_discovered env m ≡ some (tt, m'))
      × (m'.discoveries ≡ [])
      × IsValid cache_size m'.cache
      × (cached m'.cache ≡ newest cache_size (cached m.cache ++ m.discoveries))
      × (m'.scheduler.notified ≡ (
          if has_met_connection_quota m.statistics || available m.connection_pool == 0
          then m.scheduler.notified
          else true))
unfolding drain_discovered get send_notification
drain_discovered_lem env m v =
    elim (Bool-cases (has_met_connection_quota m.statistics || available m.connection_pool == 0)) [
      | inl busy ↦
          rw (drain_discovered, busy)
            (
              _,
              refl,
              refl,
              (push_all_lem m.discoveries m.cache v).0,
              (push_all_lem m.discoveries m.cache v).1,
              refl,
            )
      | inr ready ↦
          rw (drain_discovered, ready, send_notification)
            (
              _,
              refl,
              refl,
              (push_all_lem m.discoveries m.cache v).0,
              (push_all_lem m.discoveries m.cache v).1,
              refl,
            )
    ]
