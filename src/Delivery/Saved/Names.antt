-- ===== src/Delivery/Saved/Names.antt =====
-- The names of the files of a directory.
use kvnorcom.Prelude.{
  ℕ, ◌≡◌, refl, Bool, false, not, ◌||◌, Bool-cases, Option-cases, inl, inr, List, [], ◌∷◌, ◌++◌,
  is_empty, arith,
}
use kvnorcom.Prelude.Bytes.{Bytes, equal, codes}
use kvnorcom.Outcome.{Returns, Returns-bind}
use kvnorcom.Config.{Config}
use kvnorcom.System.{System}
use kvnorcom.System.File.{File, is_file}
use kvnorcom.Delivery.Saved.{get_file_list, list_files, fix_path, replace_slashes}

-- The files of a directory have names.
abbrev pub AllNamed : List File → Type 0
AllNamed [] = Unit
AllNamed (f ∷ fs) = (is_empty f.name ≡ false) × AllNamed fs

pub replace_slashes-is_empty : (path : Bytes) → is_empty (replace_slashes path) ≡ is_empty path
unfolding replace_slashes
replace_slashes-is_empty [] = refl
replace_slashes-is_empty (c ∷ []) = refl
replace_slashes-is_empty (c ∷ d ∷ cs) = ground arith

pub append-is_empty : (a b : Bytes) → is_empty a ≡ false → is_empty (a ++ b) ≡ false
append-is_empty [] b h = ground arith
append-is_empty (c ∷ a) b h = refl

pub fix_path-is_empty : (path : Bytes) → is_empty path ≡ false → is_empty (fix_path path) ≡ false
unfolding fix_path
fix_path-is_empty path h =
    ground
      (arith, replace_slashes-is_empty path, append-is_empty (replace_slashes path) (codes "/"))

module _ {W : Type 0} (sys : System W) where
  list_files-AllNamed :
      (ignored : ℕ → Bool) (path : Bytes) (names : List Bytes) (w : W)
      → is_empty path ≡ false
      → Returns (λ (p : List File × W). AllNamed p.0) (list_files sys ignored path names w)
  unfolding list_files
  list_files-AllNamed ignored path [] w h = tt
  list_files-AllNamed ignored path (n ∷ ns) w h =
      elim (Bool-cases (equal n (codes "..") || equal n (codes "."))) [
        | inl dots ↦ rw (list_files, dots) (list_files-AllNamed ignored path ns w h)
        | inr other ↦ elim (Option-cases (sys.stat (path ++ n) w).0) [
          | inl gone ↦
              rw (list_files, other, gone)
                (list_files-AllNamed ignored path ns (sys.stat (path ++ n) w).1 h)
          | inr (s, there) ↦
              elim (Bool-cases
                (ignored s.mtime || not (is_file (record { name = path ++ n; stat = s })))) [
                  | inl out ↦
                      rw (list_files, other, there, out)
                        (list_files-AllNamed ignored path ns (sys.stat (path ++ n) w).1 h)
                  | inr keep ↦
                      rw (list_files, other, there, keep)
                        (Returns-bind (λ (p : List File × W). AllNamed p.0)
                          (λ (p : List File × W). AllNamed p.0) _ _
                          (list_files-AllNamed ignored path ns (sys.stat (path ++ n) w).1 h)
                          (λ p k. (append-is_empty path n h, k)))
                ]
        ]
      ]

  pub get_file_list-AllNamed :
      (conf : Config) (path pattern_text : Bytes) (w : W)
      → Returns (λ (p : List File × W). AllNamed p.0) (get_file_list sys conf path pattern_text w)
  unfolding get_file_list
  get_file_list-AllNamed conf path pattern_text w = elim (Bool-cases (is_empty path)) [
    | inl none_given ↦ rw none_given tt
    | inr given ↦ elim (Option-cases (sys.list_dir (fix_path path) pattern_text w).0) [
      | inl closed ↦ rw (given, closed) tt
      | inr (names, there) ↦
          rw (given, there)
            (list_files-AllNamed conf.ignored (fix_path path) names
              (sys.list_dir (fix_path path) pattern_text w).1 (fix_path-is_empty path given))
    ]
  ]
