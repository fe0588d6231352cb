-- ===== src/TcpBuffer/Tests.antt =====
-- Tests of the old ring buffer.
use bittorrent_application_l.Base.{◌≡◌, refl, true, arith, replicate}
use bittorrent_application_l.RingBuffer
use bittorrent_application_l.TcpBuffer.{
  TcpBuffer, write_action, r_available, w_available, commit_write, commit_read, full,
}
use bittorrent_application_l.TcpBuffer.Counts.{IsValid}
use bittorrent_application_l.TcpBuffer.Commits.{ring_of}
use bittorrent_application_l.TcpBuffer.Same.{Agree, commit-ring_of}

-- Five bytes, of which three wait round the end.
abbrev wrapped : TcpBuffer
wrapped = record { prev_action = write_action; read = 3; write = 1; buffer = replicate 5 0 }

three_wait : r_available 5 wrapped ≡ 3
unfolding r_available
three_wait = refl

-- A ring that is written full has equal indices.
filled : full (commit_write 5 2 wrapped) ≡ true
unfolding commit_write full
filled = refl

commit-ring_of_example :
    Agree 5 wrapped
    × IsValid 5 (commit_write 5 2 wrapped)
    × IsValid 5 (commit_read 5 3 wrapped)
    × (ring_of 5 (commit_write 5 2 wrapped) ≡ RingBuffer.commit_write 5 (ring_of 5 wrapped) 2)
    × (ring_of 5 (commit_read 5 3 wrapped) ≡ RingBuffer.commit_read 5 (ring_of 5 wrapped) 3)
unfolding w_available r_available
commit-ring_of_example =
    commit-ring_of 5 2 3 wrapped
      (record { small = omega arith; read_in = omega arith; write_in = omega arith }) (omega arith)
      (omega arith)
