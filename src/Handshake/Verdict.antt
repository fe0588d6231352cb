-- ===== src/Handshake/Verdict.antt =====
-- What the rounds of `decode` find when the view holds all the bytes that are left.
use bittorrent_application_l.Base.{
  ℕ, ◌+◌, ◌-◌, ◌≤◌, ◌<◌, ◌^◌, ◌≡◌, refl, sym, ap, ◌∙◌, inl, inr, Bool, true, ◌&&◌, List, [], ◌∷◌,
  ◌++◌, some, arith, length, take, drop, sub_size, length-drop, drop-drop, take-take_of_le,
  drop-take, take_of_le, take_congr, if◌then◌else◌, ◌==◌, Bool-cases, le→ltb_false,
}
use bittorrent_application_l.RingBuffer.{Iovec}
use bittorrent_application_l.Window.{write_at_all}
use bittorrent_application_l.RingBuffer.Regions.{region}
use bittorrent_application_l.Handshake.{
  Decoding, break, equal, wraparound_steal, read_peer_id, read_info_hash, read_reserved, read_pstr,
}

-- A comparison in two parts.
pub equal_parts :
    (h v w : List ℕ)
    → (equal (take (length v) h) v && equal (drop (length v) h) w) ≡ equal h (v ++ w)
equal_parts h [] w = refl
equal_parts [] (x ∷ v) w = refl
equal_parts (y ∷ h) (x ∷ v) w = elim (Bool-cases (y == x)) [
  | inl e ↦ rw e (equal_parts h v w)
  | inr e ↦ rw e
]

abbrev pub verdict : Decoding → Bool × List ℕ
verdict d = (d.valid, d.peer)

-- The verdict on the bytes from the info hash on.
abbrev pub judge : List ℕ → List ℕ → List ℕ → Bool × List ℕ
judge hash peer bytes =
    let same = equal hash (take 20 bytes) in (same, if same then drop 20 bytes else peer)

module _ (buf hash : List ℕ) where
  -- The second iovec, and what stealing from it leaves.
  pub steal_lem :
      (b len size : ℕ)
      → size ≤ len
      → len < 2 ^ 64
      → let io : Iovec = record { iov_base = some b; iov_len = len } in
        let rest = region buf io in
        ((wraparound_steal buf io size).0 ≡ take size rest)
        × (region buf (wraparound_steal buf io size).1 ≡ drop size rest)
  unfolding wraparound_steal
  steal_lem b len size h small = (
    sym (take-take_of_le size len (drop b buf) h),
    take_congr (sub_size len size) (len - size) (drop (b + size) buf) (omega arith)
        ∙ ap (take (len - size)) (sym (drop-drop size b buf))
        ∙ sym (drop-take size len (drop b buf)),
  )

  -- The tests fall through to the end when the view holds all that is left.
  pub peer_full :
      (view : List ℕ) (d : Decoding)
      → length view ≡ 20
      → length d.peer ≡ 20
      → read_peer_id buf hash view d ≡ (break, record d { peer = view })
  unfolding read_peer_id
  peer_full view d e p = rw (
    le→ltb_false (length view) 20 (omega arith),
    take_of_le 20 view (omega arith),
    write_at_all d.peer view (omega arith),
  )

  pub info_full :
      (view : List ℕ) (d : Decoding)
      → length view ≡ 40
      → length d.peer ≡ 20
      → let (flow, d') = read_info_hash buf hash view d in
        (flow ≡ break) × (verdict d' ≡ judge hash d.peer view)
  unfolding read_info_hash
  info_full view d e p =
      rw (le→ltb_false (length view) 20 (omega arith))
        (elim (Bool-cases (equal hash (take 20 view))) [
          | inl same ↦
              rw
                (
                  same,
                  peer_full (drop 20 view) (record d { valid = true })
                      (omega (arith, length-drop 20 view)) p,
                )
                (refl, refl)
          | inr other ↦ rw other (refl, refl)
        ])

  pub reserved_full :
      (view : List ℕ) (d : Decoding)
      → length view ≡ 48
      → length d.peer ≡ 20
      → let (flow, d') = read_reserved buf hash view d in
        (flow ≡ break) × (verdict d' ≡ judge hash d.peer (drop 8 view))
  unfolding read_reserved
  reserved_full view d e p =
      rw (le→ltb_false (length view) 8 (omega arith))
        (info_full (drop 8 view) (record d { valid = true }) (omega (arith, length-drop 8 view)) p)

  pub pstr_full :
      (view : List ℕ) (d : Decoding)
      → length view ≡ 67
      → length d.peer ≡ 20
      → let (flow, d') = read_pstr buf hash view d in
        (flow ≡ break) × (verdict d' ≡ judge hash d.peer (drop 27 view))
  unfolding read_pstr
  pstr_full view d e p =
      rw (le→ltb_false (length view) 19 (omega arith), ← drop-drop 8 19 view)
        (reserved_full (drop 19 view) (record d { valid = true })
          (omega (arith, length-drop 19 view)) p)
