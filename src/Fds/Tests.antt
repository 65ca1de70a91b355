-- ===== src/Fds/Tests.antt =====
-- Tests with a file of five bytes on descriptor 3.
use mos_enhanced_shell.Base.{
  ℕ, ◌+◌, ◌≡◌, refl, true, List, [], ◌∷◌, arith, ltb, ◌==◌, if◌then◌else◌, length, take, drop,
  get_or,
}
use mos_enhanced_shell.Kernel.Result.{ok}
use mos_enhanced_shell.Fds.{Dev, Fds, fd_alloc, alloc_fd_from, fd_lookup, dev_lookup, readn}
use mos_enhanced_shell.Fds.Stream.{IsOpen}
use mos_enhanced_shell.Fds.File.{
  Filefd, file_read, file_bytes, bytes_from, file_read-Holds, readn-file_read,
}

abbrev text : List ℕ
text = 10 ∷ 20 ∷ 30 ∷ 40 ∷ 50 ∷ []

-- The device 'f', on which nothing is written or closed here.
abbrev devfile : Dev Filefd
devfile = record {
  dev_id = b'f';
  dev_read = file_read;
  dev_write = λ w i f xs offset. (ok 0, w);
  dev_close = λ w i f. (ok tt, w);
}

-- Descriptor 3 is open at offset 1, and 0 to 3 are in use.
abbrev opened : Fds Filefd
opened = record {
  table = true;
  mapped = λ i. ltb i 4;
  fd = λ i. record { fd_dev_id = b'f'; fd_offset = 1; fd_omode = 2 };
  world = record { f_size = λ i. if i == 3 then 5 else 0; fd2data = λ i j. get_or text j 0 };
}

next_fd : fd_alloc opened ≡ ok 4
unfolding fd_alloc alloc_fd_from
next_fd = refl

opened-IsOpen : IsOpen (devfile ∷ []) file_bytes devfile (file_read-Holds devfile refl) opened 3
unfolding fd_lookup dev_lookup
opened-IsOpen = record { there = refl; device = refl; readable = refl }

-- More is asked for than the file holds.
rest_of_file : take 9 (drop 1 (file_bytes opened.world 3)) ≡ 20 ∷ 30 ∷ 40 ∷ 50 ∷ []
unfolding bytes_from
rest_of_file = refl

readn-file_read_example :
    (t : Fds Filefd) × (readn (devfile ∷ []) 10 opened 3 9
      ≡ (ok (take 9 (drop 1 (file_bytes opened.world 3))), t))
    × ((t.fd 3).fd_offset ≡ 1 + length (take 9 (drop 1 (file_bytes opened.world 3))))
readn-file_read_example =
    readn-file_read (devfile ∷ []) devfile refl 10 9 3 opened opened-IsOpen (omega arith)
      (omega arith)
