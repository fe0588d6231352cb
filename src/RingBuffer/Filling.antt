-- ===== src/RingBuffer/Filling.antt =====
-- Copies that go round the end of the array, committed.
use bittorrent_application_l.Base.{
  ℕ, ◌+◌, ◌-◌, ◌%◌, ◌≤◌, ◌≡◌, sym, ap, ap₂, subst, ◌∙◌, List, [], ◌++◌, arith, length, take, drop,
  dec_le, append_assoc, take-append-drop, length-take, length-drop, take_of_le, drop_of_le,
}
use mathlib.Core.Path.{subst₂}
use native.Mathlib.Nat.{mod_self, add-mod_left}
use bittorrent_application_l.RingBuffer.{RingBuffer, commit_write}
use bittorrent_application_l.Window.{write_at, length-write_at}
use bittorrent_application_l.RingBuffer.Fifo.{
  IsValid, contents, write_in, buffer-IsValid, commit_write-eq, commit_write_lem,
}

module _ (n : ℕ) (r : RingBuffer) (v : IsValid n r) where
  -- A copy that fills the array to its end, seen as a commit of its own.
  filled : List ℕ → RingBuffer
  filled bs = record r {
    buffer = write_at r.buffer r.write bs;
    write = 0;
    readable = r.readable + length bs;
  }

  filled_lem :
      (bs : List ℕ)
      → length bs ≤ n - r.readable
      → r.write + length bs ≡ n
      → IsValid n (filled bs) × (contents n (filled bs) ≡ contents n r ++ bs)
  unfolding filled
  filled_lem bs h e =
      subst (λ s. IsValid n s × (contents n s ≡ contents n r ++ bs)) same
        (commit_write_lem n r bs v h (omega arith))
    where
      copied : RingBuffer
      copied = record r { buffer = write_at r.buffer r.write bs }

      copied-IsValid : IsValid n copied
      copied-IsValid = buffer-IsValid n r _ v (length-write_at r.buffer r.write bs)

      same : commit_write n copied (length bs) ≡ record r {
        buffer = write_at r.buffer r.write bs;
        write = 0;
        readable = r.readable + length bs;
      }
      same =
          commit_write-eq n copied (length bs) copied-IsValid h
          ∙ ap
              (λ k. record r {
                buffer = write_at r.buffer r.write bs;
                write = k;
                readable = r.readable + length bs;
              })
              (ap (λ k. k % n) e ∙ mod_self n)

  -- Two copies, to the array's end and from its start, committed at once.
  wrapped_lem :
      (bs cs : List ℕ)
      → length bs + length cs ≤ n - r.readable
      → r.write + length bs ≡ n
      → let r' =
          commit_write n
            (record r { buffer = write_at (write_at r.buffer r.write bs) 0 cs })
            (length bs + length cs) in
        IsValid n r' × (contents n r' ≡ contents n r ++ (bs ++ cs))
  unfolding filled
  wrapped_lem bs cs h e =
      subst (λ s. IsValid n s × (contents n s ≡ contents n r ++ (bs ++ cs))) same
        (second.0, second.1 ∙ ap (λ xs. xs ++ cs) first.1 ∙ append_assoc (contents n r) bs cs)
    where
      first : IsValid n (filled bs) × (contents n (filled bs) ≡ contents n r ++ bs)
      first = filled_lem bs (omega arith) e

      second :
          let r' =
            commit_write n
              (record (filled bs) { buffer = write_at (write_at r.buffer r.write bs) 0 cs })
              (length cs) in
          IsValid n r' × (contents n r' ≡ contents n (filled bs) ++ cs)
      second = commit_write_lem n (filled bs) cs first.0 (omega arith) (omega arith)

      written : RingBuffer
      written = record r { buffer = write_at (write_at r.buffer r.write bs) 0 cs }

      written-IsValid : IsValid n written
      written-IsValid = buffer-IsValid n r _ v (
          length-write_at (write_at r.buffer r.write bs) 0 cs ∙ length-write_at r.buffer r.write bs)

      later-IsValid : IsValid n (record (filled bs) { buffer = written.buffer })
      later-IsValid =
          buffer-IsValid n (filled bs) _ first.0
            (length-write_at (write_at r.buffer r.write bs) 0 cs)

      same :
          commit_write n (record (filled bs) { buffer = written.buffer }) (length cs)
          ≡ commit_write n written (length bs + length cs)
      same =
          commit_write-eq n (record (filled bs) { buffer = written.buffer }) (length cs)
            later-IsValid (omega arith)
          ∙ ap₂ (λ w k. record written { write = w; readable = k })
              (ap (λ k. k % n) (let q : 0 + length cs ≡ length cs = omega arith in q)
                ∙ sym (add-mod_left n (length cs))
                ∙ ap (λ k. k % n)
                    (let q : n + length cs ≡ r.write + (length bs + length cs) = omega arith in q))
              (let q : r.readable + length bs + length cs ≡ r.readable + (length bs + length cs) =
                  omega arith in
                q)
          ∙ sym (commit_write-eq n written (length bs + length cs) written-IsValid h)

  pub wrapped_scatter :
      (bs : List ℕ)
      → length bs ≤ n - r.readable
      → n - r.write + r.read ≡ n - r.readable
      → let m = n - r.write in
        let buf = write_at (write_at r.buffer r.write (take m bs)) 0 (take r.read (drop m bs)) in
        let r' = commit_write n (record r { buffer = buf }) (length bs) in
        IsValid n r' × (contents n r' ≡ contents n r ++ bs)
  wrapped_scatter bs h le = elim (dec_le (length bs) (n - r.write)) [
    | yes p ↦
        rw
          (
            take_of_le (n - r.write) bs p,
            drop_of_le (n - r.write) bs p,
            take_of_le {A = ℕ} r.read [] (omega arith),
          )
          (commit_write_lem n r bs v h (omega (arith, write_in n r v)))
    | no p ↦
        rw (take_of_le r.read (drop (n - r.write) bs) (omega (arith, length-drop (n - r.write) bs)))
          (subst₂
            (λ xs k.
              let m = n - r.write in
              let buf = write_at (write_at r.buffer r.write (take m bs)) 0 (drop m bs) in
              let r' = commit_write n (record r { buffer = buf }) k in
              IsValid n r' × (contents n r' ≡ contents n r ++ xs))
            (take-append-drop (n - r.write) bs)
            (omega (arith, length-take (n - r.write) bs, length-drop (n - r.write) bs))
            (wrapped_lem (take (n - r.write) bs) (drop (n - r.write) bs)
              (omega (arith, length-take (n - r.write) bs, length-drop (n - r.write) bs))
              (omega (arith, length-take (n - r.write) bs, write_in n r v))))
  ]
