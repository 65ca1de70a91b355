-- ===== src/Path/Tests.antt =====
-- Runs of `resolve_path`, and the theorems at them.
use mos_enhanced_shell.Base.{ℕ, ◌≡◌, refl, some, List, [], ◌∷◌, arith}
use mos_enhanced_shell.Path.{
  ok, error, resolve_path, slash, or_root, resolve_loop, skip_slashes, comp_len, step, append_comp,
  go_up, last_slash,
}
use mos_enhanced_shell.Strings.Scan.{index_of}
use mos_enhanced_shell.Path.Split.{split, AllComps}
use mos_enhanced_shell.Path.Up.{Components, render}
use mos_enhanced_shell.Path.Walk.{walk, outcome, AllCanonical}
use mos_enhanced_shell.Path.Resolve.{origin, resolve_path-walk, resolve_path-canonical}

abbrev usr : List ℕ
usr = b'u' ∷ b's' ∷ b'r' ∷ []

abbrev bin : List ℕ
bin = b'b' ∷ b'i' ∷ b'n' ∷ []

-- "/usr"
abbrev home : Components
home = usr ∷ []

-- "//.././/bin"
abbrev messy : List ℕ
messy = slash ∷ slash ∷ b'.' ∷ b'.' ∷ slash ∷ b'.' ∷ slash ∷ slash ∷ b'b' ∷ b'i' ∷ b'n' ∷ []

-- "../bin"
abbrev sibling : List ℕ
sibling = b'.' ∷ b'.' ∷ slash ∷ b'b' ∷ b'i' ∷ b'n' ∷ []

home-AllComps : AllComps home
home-AllComps = (((λ e. cc), (ground arith, (ground arith, (ground arith, tt)))), tt)

home-AllCanonical : AllCanonical 64 home
home-AllCanonical = (home-AllComps.0, (λ e. cc), (λ e. cc), omega arith, omega arith, tt)

messy-resolved : resolve_path 12 (some (render home)) messy 64 ≡ ok (render (bin ∷ []))
unfolding resolve_path or_root resolve_loop skip_slashes comp_len index_of step append_comp go_up
    last_slash
messy-resolved = refl

sibling-resolved : resolve_path 12 (some (render home)) sibling 64 ≡ ok (render (bin ∷ []))
unfolding resolve_path or_root resolve_loop skip_slashes comp_len index_of step append_comp go_up
    last_slash
sibling-resolved = refl

too_long : resolve_path 12 (some (render home)) sibling 4 ≡ error
unfolding resolve_path or_root resolve_loop skip_slashes comp_len index_of step append_comp go_up
    last_slash
too_long = refl

resolve_path-walk_example :
    resolve_path 12 (some (render home)) sibling 64
    ≡ outcome (walk 64 (split sibling) (origin sibling home))
resolve_path-walk_example =
    resolve_path-walk 12 64 sibling home home-AllComps (omega arith) (omega arith) (omega arith)

resolve_path-canonical_example :
    resolve_path 5 (some (render [])) (render home) 64 ≡ ok (render home)
resolve_path-canonical_example =
    resolve_path-canonical 5 64 home [] home-AllCanonical tt (omega arith) (omega arith)
