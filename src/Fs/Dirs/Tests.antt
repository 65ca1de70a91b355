-- ===== src/Fs/Dirs/Tests.antt =====
-- Tests on a disk with the directory "a" in the root, and the file "b" in it.
use mos_enhanced_shell.Base.{
  ℕ, arith, ◌≡◌, refl, ◌⊎◌, false, ◌&&◌, Option, none, some, List, [], ◌∷◌, leb, ◌==◌,
  if◌then◌else◌,
}
use mos_enhanced_shell.Kernel.Result.{Error}
use mos_enhanced_shell.Kernel.Fallible.{Run, done, failed, panicked}
use mos_enhanced_shell.Strings.Scan.{index_of}
use mos_enhanced_shell.Path.{skip_slashes, comp_len}
use mos_enhanced_shell.Path.Split.{split, split_from}
use mos_enhanced_shell.Fs.Disk.{read_block, block_is_free}
use mos_enhanced_shell.Fs.Blocks.{
  file_get_block, file_map_block, file_block_walk, fill_slot, read_slot,
}
use mos_enhanced_shell.Fs.Dirs.{
  Place, Server, file_open, file_create, walk_path, walk_from, dir_lookup, lookup_from, find_name,
  find_unused, name_from, get_file, put_file, file_word, set_dir, last_lookup, dir_alloc_file,
  unused_from, s_root,
}
use mos_enhanced_shell.Fs.Dirs.Packed.{AllBytes}
use mos_enhanced_shell.Fs.Dirs.Walk.{walk_names, walk_path-names}
use mos_enhanced_shell.Fs.Dirs.Reached.{Reached}
use mos_enhanced_shell.Fs.Dirs.Names.{last, Named, file_open-Named, file_create-last}

-- The superblock is block 1, the root's entries are in block 5 and those of "a" in block 6.
abbrev words : ℕ → ℕ → ℕ
words b i =
    if b == 1
    then (if i == 34 then 4096 else if i == 35 then 1 else if i == 36 then 5 else 0)
    else if b == 5
    then (if i == 0
        then 97
        else if i == 32
        then 4096
        else if i == 33
        then 1
        else if i == 34
        then 6
        else 0)
    else if b == 6
    then (if i == 0 then 98 else 0)
    else 0

abbrev server : Server
server = record {
  disk = record {
    s_nblocks = 16;
    bitmap = λ k i. k == 0 && leb 9 i;
    disk_bitmap = λ k i. k == 0 && leb 9 i;
    mapped = λ b. leb b 6;
    dirty = λ b. false;
    cache = words;
    disk = words;
  };
  f_dir = λ b o. none;
}

abbrev always : ℕ → Option Error
always b = none

abbrev state_of : {A : Type 0} → Run Server A → Server
state_of (done a t) = t
state_of (failed e t) = t
state_of panicked = server

-- "/a//b"
abbrev path_b : List ℕ
path_b = 47 ∷ 97 ∷ 47 ∷ 47 ∷ 98 ∷ []

opened_b : file_open always server path_b ≡ done (6, 0) (state_of (file_open always server path_b))
unfolding file_open walk_path walk_from dir_lookup lookup_from find_name name_from get_file put_file
    file_word set_dir last_lookup file_get_block file_map_block file_block_walk fill_slot read_slot
    read_block block_is_free skip_slashes comp_len index_of
opened_b = refl

file_open-Named_example :
    ((split path_b ≡ []) × ((6, 0) ≡ s_root))
    ⊎ ((dir : Place) × Named
          (state_of (file_open always server path_b))
          (last (split path_b))
          (some dir)
          (6, 0)
        × Reached always server none s_root (split path_b) dir)
file_open-Named_example =
    file_open-Named always server (state_of (file_open always server path_b)) path_b (6, 0) opened_b

walk_path-names_example :
    walk_path always server path_b ≡ walk_names always server none s_root (split path_b)
walk_path-names_example = walk_path-names always path_b server

-- "/a/c"
abbrev path_c : List ℕ
path_c = 47 ∷ 97 ∷ 47 ∷ 99 ∷ []

created_c :
    file_create always server path_c ≡ done (6, 64) (state_of (file_create always server path_c))
unfolding file_create walk_path walk_from dir_lookup lookup_from find_name name_from get_file
    put_file file_word set_dir last_lookup file_get_block file_map_block file_block_walk fill_slot
    read_slot read_block block_is_free skip_slashes comp_len index_of dir_alloc_file unused_from
    find_unused
created_c = refl

name_c : last (split path_c) ≡ 99 ∷ []
unfolding split split_from
name_c = refl

bytes_c : AllBytes (last (split path_c))
bytes_c = rw name_c ((λ e. ground arith, ground arith), tt)

file_create-last_example :
    (get_file (state_of (file_create always server path_c)).disk (6, 64)).f_name
    ≡ last (split path_c)
file_create-last_example =
    file_create-last always server (state_of (file_create always server path_c)) path_c (6, 64)
      (bytes_c) created_c
