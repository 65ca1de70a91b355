-- ===== src/Fds.antt =====
-- File descriptors (user/lib/fd.c). The pages of the descriptors lie in one page table. Devices are
-- an interface, as they are in the source: a record of functions that work on the world.
pub mod Stream
pub mod File
mod Tests
use mos_enhanced_shell.Base.{
  ℕ, zero, suc, ◌+◌, ◌-◌, ◌%◌, ◌^◌, Bool, true, false, ◌&&◌, not, List, [], ◌∷◌, ◌++◌, ltb, leb,
  ◌==◌, if◌then◌else◌, length,
}
use mos_enhanced_shell.Kernel.Result.{Error, Result, ok, err, inval, max_open}

abbrev pub maxfd : ℕ
maxfd = 32

abbrev pub o_rdonly : ℕ
o_rdonly = 0

abbrev pub o_wronly : ℕ
o_wronly = 1

pub record Fd : Type 0 where
  pub fd_dev_id : ℕ
  pub fd_offset : ℕ
  pub fd_omode : ℕ

-- `struct Dev`. The operations get the number of the descriptor, which says where it is, with what
-- it holds. Reading gives the bytes that are read, writing their number.
pub record Dev (W : Type 0) : Type 0 where
  pub dev_id : ℕ
  pub dev_read : W → ℕ → Fd → ℕ → ℕ → Result (List ℕ) × W
  pub dev_write : W → ℕ → Fd → List ℕ → ℕ → Result ℕ × W
  pub dev_close : W → ℕ → Fd → Result (Unit {0}) × W

pub record Fds (W : Type 0) : Type 0 where
  pub table : Bool
  pub mapped : ℕ → Bool
  pub fd : ℕ → Fd
  pub world : W

-- `fd->fd_omode & O_ACCMODE`
abbrev pub accmode : Fd → ℕ
accmode f = f.fd_omode % 4

unfoldable pub set_offset : {W : Type 0} → Fds W → ℕ → ℕ → Fds W
set_offset s i n = record s {
  fd = λ j. if j == i then record (s.fd i) { fd_offset = n % 2 ^ 32 } else s.fd j;
}

unfoldable pub dev_lookup : {W : Type 0} → List (Dev W) → ℕ → Result (Dev W)
dev_lookup [] id = err inval
dev_lookup (d ∷ devtab) id = if d.dev_id == id then ok d else dev_lookup devtab id

-- The loop of `fd_alloc`, with the rounds that are left.
unfoldable pub alloc_fd_from : {W : Type 0} → ℕ → ℕ → Fds W → Result ℕ
alloc_fd_from zero i s = err max_open
alloc_fd_from (suc n) i s =
    let rest = alloc_fd_from n (i + 1) s in
    if not s.table then ok i else if not (s.mapped i) then ok i else rest

unfoldable pub fd_alloc : {W : Type 0} → Fds W → Result ℕ
fd_alloc s = alloc_fd_from (maxfd - 1) 0 s

-- For a number that is not negative.
unfoldable pub fd_lookup : {W : Type 0} → Fds W → ℕ → Result ℕ
fd_lookup s i = if leb maxfd i then err inval else if s.mapped i then ok i else err inval

unfoldable pub fd_close : {W : Type 0} → Fds W → ℕ → Fds W
fd_close s i = record s { mapped = λ j. if j == i then false else s.mapped j }

-- What is read before the rest.
abbrev pub prepend : {W : Type 0} → List ℕ → Result (List ℕ) × W → Result (List ℕ) × W
prepend xs (err e, w) = (err e, w)
prepend xs (ok ys, w) = (ok (xs ++ ys), w)

module _ {W : Type 0} (devtab : List (Dev W)) where
  unfoldable pub close : Fds W → ℕ → Result (Unit {0}) × Fds W
  close s i = elim (fd_lookup s i) [
    | err e ↦ (err e, s)
    | ok _ ↦ elim (dev_lookup devtab (s.fd i).fd_dev_id) [
      | err e ↦ (err e, s)
      | ok dev ↦
          let closed = dev.dev_close s.world i (s.fd i) in
          (closed.0, fd_close (record s { world = closed.1 }) i)
    ]
  ]

  -- The loop of `close_all`, with the rounds that are left.
  unfoldable pub close_from : ℕ → ℕ → Fds W → Fds W
  close_from zero i s = s
  close_from (suc n) i s = close_from n (i + 1) (close s i).1

  unfoldable pub close_all : Fds W → Fds W
  close_all s = close_from maxfd 0 s

  -- The offset moves behind what was read.
  unfoldable pub move_read : Fds W → ℕ → Result (List ℕ) × W → Result (List ℕ) × Fds W
  move_read s i (err e, w) = (err e, record s { world = w })
  move_read s i (ok xs, w) = (
    ok xs,
    if ltb 0 (length xs)
        then set_offset (record s { world = w }) i ((s.fd i).fd_offset + length xs)
        else record s { world = w },
  )

  unfoldable pub read : Fds W → ℕ → ℕ → Result (List ℕ) × Fds W
  read s i n = elim (fd_lookup s i) [
    | err e ↦ (err e, s)
    | ok _ ↦ elim (dev_lookup devtab (s.fd i).fd_dev_id) [
      | err e ↦ (err e, s)
      | ok dev ↦
          if accmode (s.fd i) == o_wronly
          then (err inval, s)
          else move_read s i (dev.dev_read s.world i (s.fd i) n (s.fd i).fd_offset)
    ]
  ]

  -- On fuel for each call; the bytes that are read.
  unfoldable pub readn : ℕ → Fds W → ℕ → ℕ → Result (List ℕ) × Fds W
  readn zero s i n = (ok [], s)
  readn (suc k) s i n =
      let r = read s i n in
      if n == 0 then (ok [], s) else elim r.0 [
        | err e ↦ (err e, r.1)
        | ok xs ↦ elim xs [
          | [] ↦ (ok [], r.1)
          | x ∷ rest ↦ prepend (x ∷ rest) (readn k r.1 i (n - length (x ∷ rest)))
        ]
      ]

  unfoldable pub move_write : Fds W → ℕ → Result ℕ × W → Result ℕ × Fds W
  move_write s i (err e, w) = (err e, record s { world = w })
  move_write s i (ok n, w) = (
    ok n,
    if ltb 0 n
        then set_offset (record s { world = w }) i ((s.fd i).fd_offset + n)
        else record s { world = w },
  )

  unfoldable pub write : Fds W → ℕ → List ℕ → Result ℕ × Fds W
  write s i xs = elim (fd_lookup s i) [
    | err e ↦ (err e, s)
    | ok _ ↦ elim (dev_lookup devtab (s.fd i).fd_dev_id) [
      | err e ↦ (err e, s)
      | ok dev ↦
          if accmode (s.fd i) == o_rdonly
          then (err inval, s)
          else move_write s i (dev.dev_write s.world i (s.fd i) xs (s.fd i).fd_offset)
    ]
  ]

unfoldable pub seek : {W : Type 0} → Fds W → ℕ → ℕ → Result (Unit {0}) × Fds W
seek s i offset = elim (fd_lookup s i) [
  | err e ↦ (err e, s)
  | ok _ ↦ (ok tt, set_offset s i offset)
]
