-- ===== src/Kernel/Pages.antt =====
-- Physical pages and page tables (kern/pmap.c). A page is its index in `pages`; its contents are
-- 1024 words.
pub mod Digits
pub mod Count
pub mod Space
pub mod Walk
pub mod Remove
pub mod Place
pub mod Insert
pub mod Alloc
pub mod Calls
mod Tests
use Prim.Native.Nat.{bit_or}
use mos_enhanced_shell.Base.{
  ℕ, zero, suc, ◌+◌, ◌-◌, ◌*◌, ◌/◌, ◌%◌, ◌^◌, Bool, true, false, ◌&&◌, ◌||◌, not, Option, none,
  some, List, [], ◌∷◌, ltb, leb, ◌==◌, if◌then◌else◌,
}
use mos_enhanced_shell.Kernel.Result.{Error, no_mem}
use mos_enhanced_shell.Kernel.Fallible.{Run, done, failed, panicked, and_then}

-- `pp_ref` is a number of 16 bits.
pub record Pages : Type 0 where
  pub npage : ℕ
  pub pp_ref : ℕ → ℕ
  pub page_free_list : List ℕ
  pub words : ℕ → ℕ → ℕ

-- include/mmu.h
abbrev pub pdx : ℕ → ℕ
pdx va = va / 2 ^ 22 % 1024

abbrev pub ptx : ℕ → ℕ
ptx va = va / 2 ^ 12 % 1024

-- `PPN`, the page of an address or of an entry.
abbrev pub ppn : ℕ → ℕ
ppn w = w / 2 ^ 12

abbrev pub page2pa : ℕ → ℕ
page2pa pp = pp * 2 ^ 12 % 2 ^ 32

abbrev pub pte_v : ℕ
pte_v = 0x80

abbrev pub pte_c_cacheable : ℕ
pte_c_cacheable = 0x600

-- `w & PTE_V`
abbrev pub is_valid : ℕ → Bool
is_valid w = w / pte_v % 2 == 1

unfoldable pub entry : ℕ → ℕ → ℕ
entry pp perm = bit_or (bit_or (bit_or (page2pa pp) perm) pte_c_cacheable) pte_v

-- The directory's entry for a table.
unfoldable pub table_entry : ℕ → ℕ
table_entry pp = bit_or (bit_or (page2pa pp) pte_c_cacheable) pte_v

unfoldable pub set_word : Pages → ℕ → ℕ → ℕ → Pages
set_word s p i w = record s { words = λ q j. if q == p && j == i then w else s.words q j }

unfoldable pub set_ref : Pages → ℕ → ℕ → Pages
set_ref s p n = record s { pp_ref = λ q. if q == p then n else s.pp_ref q }

-- The second loop of `page_init`: the pages from `i` on, `n` of them, in the list.
unfoldable pub insert_pages : ℕ → ℕ → List ℕ → List ℕ
insert_pages zero i free = free
insert_pages (suc n) i free = insert_pages n (i + 1) (i ∷ free)

-- `size` pages are in use when the kernel starts. It was checked before that they exist.
unfoldable pub page_init : ℕ → ℕ → (ℕ → ℕ → ℕ) → Pages
page_init npage size words = record {
  npage = npage;
  pp_ref = λ p. if ltb p size then 1 else 0;
  page_free_list = insert_pages (npage - size) size [];
  words = words;
}

unfoldable pub page_alloc : Pages → Run Pages ℕ
page_alloc s = elim s.page_free_list [
  | [] ↦ failed no_mem s
  | pp ∷ rest ↦
      done pp
        (record s { page_free_list = rest; words = λ q j. if q == pp then 0 else s.words q j })
]

unfoldable pub page_free : Pages → ℕ → Run Pages (Unit {0})
page_free s pp =
    if not (s.pp_ref pp == 0)
    then panicked
    else done tt (record s { page_free_list = pp ∷ s.page_free_list })

unfoldable pub page_decref : Pages → ℕ → Run Pages (Unit {0})
page_decref s pp =
    if s.pp_ref pp == 0
    then panicked
    else if s.pp_ref pp - 1 == 0
    then page_free (set_ref s pp (s.pp_ref pp - 1)) pp
    else done tt (set_ref s pp (s.pp_ref pp - 1))

-- `KADDR` of the table, and the place in it.
unfoldable pub table_slot : Pages → ℕ → ℕ → Run Pages (Option (ℕ × ℕ))
table_slot s pde va = if leb s.npage (ppn pde) then panicked else done (some (ppn pde, ptx va)) s

-- `*ppte` as a page and an index, `none` for null. The directory's entry is tested against 0.
unfoldable pub pgdir_walk : Pages → ℕ → ℕ → Bool → Run Pages (Option (ℕ × ℕ))
pgdir_walk s pgdir va create =
    if not (s.words pgdir (pdx va) == 0)
    then table_slot s (s.words pgdir (pdx va)) va
    else if create
    then and_then (page_alloc s) (λ pp t.
      table_slot
        (set_ref (set_word t pgdir (pdx va) (table_entry pp)) pp ((t.pp_ref pp + 1) % 2 ^ 16))
        (table_entry pp) va)
    else done none s

-- The page and the place of its entry.
unfoldable pub page_lookup : Pages → ℕ → ℕ → Run Pages (Option (ℕ × (ℕ × ℕ)))
page_lookup s pgdir va = and_then (pgdir_walk s pgdir va false) λ pte t. elim pte [
  | none ↦ done none t
  | some (q, i) ↦
      if not (is_valid (t.words q i))
      then done none t
      else if leb t.npage (ppn (t.words q i))
      then panicked
      else done (some (ppn (t.words q i), (q, i))) t
]

unfoldable pub page_remove : Pages → ℕ → ℕ → Run Pages (Unit {0})
page_remove s pgdir va = and_then (page_lookup s pgdir va) λ found t. elim found [
  | none ↦ done tt t
  | some (pp, (q, i)) ↦ and_then (page_decref t pp) λ _ u. done tt (set_word u q i 0)
]

-- Steps 3 and 4 of `page_insert`. A walk that creates the table does not return null.
unfoldable pub install : Pages → ℕ → ℕ → ℕ → ℕ → Run Pages (Unit {0})
install s pgdir pp va perm = and_then (pgdir_walk s pgdir va true) λ pte t. elim pte [
  | none ↦ panicked
  | some (q, i) ↦
      let u = set_word t q i (entry pp perm) in done tt (set_ref u pp ((u.pp_ref pp + 1) % 2 ^ 16))
]

unfoldable pub page_insert : Pages → ℕ → ℕ → ℕ → ℕ → Run Pages (Unit {0})
page_insert s pgdir pp va perm = and_then (pgdir_walk s pgdir va false) λ pte t. elim pte [
  | none ↦ install t pgdir pp va perm
  | some (q, i) ↦
      if not (is_valid (t.words q i))
      then install t pgdir pp va perm
      else if leb t.npage (ppn (t.words q i))
      then panicked
      else if not (ppn (t.words q i) == pp)
      then and_then (page_remove t pgdir va) (λ _ u. install u pgdir pp va perm)
      else done tt (set_word t q i (entry pp perm))
]
