-- ===== src/Fs/Dirs.antt =====
-- Directories and paths (fs/fs.c). A `struct File` lies in a block of the cache: an entry of a
-- directory, or the root in the superblock. A pointer to one is its block and the word where it
-- starts; its words are those of include/fs.h, with the name packed four bytes to a word, the low
-- byte first. `f_dir`, which is valid only in memory, is kept apart.
mod Tests
pub mod Walk
pub mod Packed
pub mod Reached
pub mod Names
use mos_enhanced_shell.Base.{
  ℕ, zero, suc, ◌+◌, ◌-◌, ◌*◌, ◌/◌, ◌%◌, ◌^◌, Bool, true, false, ◌&&◌, ◌||◌, not, Option, none,
  some, List, [], ◌∷◌, ltb, leb, ◌==◌, if◌then◌else◌, text_eq, length, take, drop, get_or,
}
use mos_enhanced_shell.Kernel.Result.{Error, not_found, bad_path, file_exists}
use mos_enhanced_shell.Kernel.Fallible.{Run, done, failed, panicked, and_then}
use mos_enhanced_shell.Path.{skip_slashes, comp_len}
use mos_enhanced_shell.Fs.Disk.{Disk, read_block, dirty_block}
use mos_enhanced_shell.Fs.Blocks.{
  File, Files, block_size, file_map_block, file_get_block, file_truncate, file_flush,
}

abbrev pub maxnamelen : ℕ
maxnamelen = 128

abbrev pub file2blk : ℕ
file2blk = 16

-- Words of a `struct File`.
abbrev pub file_words : ℕ
file_words = 64

abbrev pub ftype_dir : ℕ
ftype_dir = 1

-- A `struct File *`.
abbrev pub Place : Type 0
Place = ℕ × ℕ

pub record Server : Type 0 where
  pub disk : Disk
  pub f_dir : ℕ → ℕ → Option Place

-- `&super->s_root`
abbrev pub s_root : Place
s_root = (1, 2)

abbrev pub word_at : Disk → Place → ℕ → ℕ
word_at d (b, o) i = d.cache b (o + i)

abbrev pub byte_at : Disk → Place → ℕ → ℕ
byte_at d p i = word_at d p (i / 4) / 256 ^ (i % 4) % 256

-- The bytes from `i` on before a zero, `n` at most.
unfoldable pub name_from : ℕ → Disk → Place → ℕ → List ℕ
name_from zero d p i = []
name_from (suc n) d p i =
    let rest = name_from n d p (i + 1) in if byte_at d p i == 0 then [] else byte_at d p i ∷ rest

unfoldable pub get_file : Disk → Place → File
get_file d p = record {
  f_name = name_from maxnamelen d p 0;
  f_size = word_at d p 32;
  f_type = word_at d p 33;
  f_direct = λ i. word_at d p (34 + i);
  f_indirect = word_at d p 44;
}

-- Word `i` of the structure, but for the name.
unfoldable pub file_word : File → ℕ → ℕ → ℕ
file_word f old i =
    if i == 32
    then f.f_size
    else if i == 33
    then f.f_type
    else if leb 34 i && ltb i 44
    then f.f_direct (i - 34)
    else if i == 44
    then f.f_indirect
    else old

unfoldable pub put_file : Disk → Place → File → Disk
put_file d (b, o) f = record d {
  cache = λ c j. if c == b && leb o j then file_word f (d.cache c j) (j - o) else d.cache c j;
}

-- The string is written with its zero byte; other bytes stay.
unfoldable pub name_byte : List ℕ → ℕ → ℕ → ℕ
name_byte name old i =
    if ltb i (length name) then get_or name i 0 else if i == length name then 0 else old

unfoldable pub put_name : Disk → Place → List ℕ → Disk
put_name d (b, o) name = record d {
  cache = λ c j.
      let i = 4 * (j - o) in
      let w = d.cache c j in
      if c == b && (leb o j && leb i (length name))
      then name_byte name (w % 256) i
        + name_byte name (w / 256 % 256) (i + 1) * 256
        + name_byte name (w / 256 ^ 2 % 256) (i + 2) * 256 ^ 2
        + name_byte name (w / 256 ^ 3 % 256) (i + 3) * 256 ^ 3
      else w;
}

abbrev pub with_disk : Server → Disk → Server
with_disk s d = record s { disk = d }

-- An operation on the file at a place.
abbrev pub at_place : {A : Type 0} → Server → Place → (Files → Run Files A) → Run Server A
at_place s p op = elim (op (s.disk, get_file s.disk p)) [
  | done a (d, f) ↦ done a (with_disk s (put_file d p f))
  | failed e (d, f) ↦ failed e (with_disk s (put_file d p f))
  | panicked ↦ panicked
]

-- The first entry of a block, from `k` on, with a name.
unfoldable pub find_name : ℕ → ℕ → Disk → ℕ → List ℕ → Option ℕ
find_name zero k d b name = none
find_name (suc n) k d b name =
    let rest = find_name n (k + 1) d b name in
    if text_eq name (get_file d (b, file_words * k)).f_name then some k else rest

-- The first entry of a block, from `k` on, that is not used.
unfoldable pub find_unused : ℕ → ℕ → Disk → ℕ → Option ℕ
find_unused zero k d b = none
find_unused (suc n) k d b =
    let rest = find_unused n (k + 1) d b in
    if byte_at d (b, file_words * k) 0 == 0 then some k else rest

unfoldable pub set_dir : Server → Place → Place → Server
set_dir s (b, o) dir = record s {
  f_dir = λ c j. if c == b && j == o then some dir else s.f_dir c j;
}

abbrev pub nblock : Server → Place → ℕ
nblock s dir = (get_file s.disk dir).f_size / block_size

-- What `walk_path` finds: the file and the directory it is in, or the directory in which the last
-- name is missing.
pub data Found : Type 0 where
  found : Option Place → Place → Found
  missing : Place → List ℕ → Found

-- A lookup for the last name of the path may be missing.
unfoldable pub last_lookup : Place → List ℕ → Run Server Place → Run Server Found
last_lookup dir name (done file t) = done (found (some dir) file) t
last_lookup dir name (failed e t) = elim e [
  | not_found ↦ done (missing dir name) t
  | other ↦ failed other t
]
last_lookup dir name panicked = panicked

module _ (mem_alloc : ℕ → Option Error) where
  -- The loop of `dir_lookup`, with the rounds that are left.
  unfoldable pub lookup_from : ℕ → ℕ → Server → Place → List ℕ → Run Server Place
  lookup_from zero i s dir name = failed not_found s
  lookup_from (suc n) i s dir name =
      and_then (at_place s dir (λ f. file_get_block mem_alloc f i)) λ blk t.
        elim (find_name file2blk 0 t.disk blk name) [
          | some k ↦ done (blk, file_words * k) (set_dir t (blk, file_words * k) dir)
          | none ↦ lookup_from n (i + 1) t dir name
        ]

  unfoldable pub dir_lookup : Server → Place → List ℕ → Run Server Place
  dir_lookup s dir name = lookup_from (nblock s dir) 0 s dir name

  -- The loop of `dir_alloc_file`, with the rounds that are left, and what follows it.
  unfoldable pub unused_from : ℕ → ℕ → Server → Place → Run Server Place
  unused_from zero i s dir =
      and_then
        (at_place s dir (λ f.
          file_get_block mem_alloc (f.0, record f.1 { f_size = (f.1.f_size + block_size) % 2 ^ 32 })
            i))
        λ blk t. done (blk, 0) t
  unused_from (suc n) i s dir =
      and_then (at_place s dir (λ f. file_get_block mem_alloc f i)) λ blk t.
        elim (find_unused file2blk 0 t.disk blk) [
          | some k ↦ done (blk, file_words * k) t
          | none ↦ unused_from n (i + 1) t dir
        ]

  unfoldable pub dir_alloc_file : Server → Place → Run Server Place
  dir_alloc_file s dir = unused_from (nblock s dir) 0 s dir

  -- The loop of `walk_path` with `dir` and `file`, on fuel for each component.
  unfoldable pub walk_from : ℕ → Server → Option Place → Place → List ℕ → Run Server Found
  walk_from zero s dir file path = panicked
  walk_from (suc n) s dir file [] = done (found dir file) s
  walk_from (suc n) s dir file (c ∷ p) =
      let len = comp_len (c ∷ p) in
      let name = take len (c ∷ p) in
      let rest = skip_slashes (drop len (c ∷ p)) in
      if leb maxnamelen len
      then failed bad_path s
      else if not ((get_file s.disk file).f_type == ftype_dir)
      then failed not_found s
      else elim rest [
        | [] ↦ last_lookup file name (dir_lookup s file name)
        | x ∷ xs ↦
            and_then (dir_lookup s file name) λ next t. walk_from n t (some file) next (x ∷ xs)
      ]

  unfoldable pub walk_path : Server → List ℕ → Run Server Found
  walk_path s path = walk_from (suc (length path)) s none s_root (skip_slashes path)

  unfoldable pub file_open : Server → List ℕ → Run Server Place
  file_open s path =
      and_then (walk_path s path)
        λ w t. elim w [ found dir file ↦ done file t | missing dir name ↦ failed not_found t ]

  unfoldable pub file_create : Server → List ℕ → Run Server Place
  file_create s path = and_then (walk_path s path) λ w t. elim w [
    | found dir file ↦ failed file_exists t
    | missing dir name ↦
        and_then (dir_alloc_file t dir) λ f u. done f (with_disk u (put_name u.disk f name))
  ]

  -- `if (f->f_dir) file_flush(f->f_dir)`
  unfoldable pub flush_dir : Server → Place → Run Server (Unit {0})
  flush_dir s (b, o) = elim (s.f_dir b o) [
    | none ↦ done tt s
    | some dir ↦ at_place s dir (file_flush mem_alloc)
  ]

  -- `f->f_name[0] = '\0'`
  unfoldable pub clear_name : Disk → Place → Disk
  clear_name d (b, o) = record d {
    cache = λ c j. if c == b && j == o then d.cache c j - d.cache c j % 256 else d.cache c j;
  }

  unfoldable pub file_remove : Server → List ℕ → Run Server (Unit {0})
  file_remove s path = and_then (file_open s path) λ f t.
      and_then (at_place t f (λ x. file_truncate mem_alloc x 0)) λ _ u.
        and_then (at_place (with_disk u (clear_name u.disk f)) f (file_flush mem_alloc))
          λ _ v. flush_dir v f

  -- The loop of `file_close`, with the rounds that are left: the block of the directory in which the
  -- file lies gets dirty. Its errors are passed over.
  unfoldable pub dirty_from : ℕ → ℕ → Server → Place → Place → Run Server (Unit {0})
  dirty_from zero i s f dir = done tt s
  dirty_from (suc n) i s f dir = elim (at_place s dir (λ x. file_map_block mem_alloc x i false)) [
    | panicked ↦ panicked
    | failed e t ↦ done tt t
    | done blk t ↦ elim (read_block mem_alloc t.disk blk) [
      | panicked ↦ panicked
      | failed e d ↦ done tt (with_disk t d)
      | done _ d ↦
          let rest = dirty_from n (i + 1) (with_disk t d) f dir in
          if not (f.0 == blk) then rest else elim (dirty_block d blk) [
            | panicked ↦ panicked
            | failed e d' ↦ done tt (with_disk t d')
            | done _ d' ↦ done tt (with_disk t d')
          ]
    ]
  ]

  unfoldable pub file_close : Server → Place → Run Server (Unit {0})
  file_close s (b, o) = and_then (at_place s (b, o) (file_flush mem_alloc)) λ _ t.
      elim (t.f_dir b o) [
        | none ↦ done tt t
        | some dir ↦
            and_then (dirty_from (nblock t dir) 0 t (b, o) dir)
              λ _ u. at_place u dir (file_flush mem_alloc)
      ]
