-- ===== src/Collector/Listed.antt =====
-- Which files the list of known files names behind a poll.
use kvnorcom.Prelude.{
  ◌≡◌, refl, Bool, true, false, ◌||◌, Bool-cases, Option-cases, inl, inr, Option, none, some, List,
  [], ◌∷◌, arith,
}
use kvnorcom.Prelude.Bytes.{Bytes, equal_iff}
use kvnorcom.Map.{find}
use kvnorcom.Map.Order.{less, less_total}
use kvnorcom.Map.Entries.{Entries, modify-Entries, erase-Entries}
use kvnorcom.Outcome.{returns, Returns, Returns-both}
use kvnorcom.Config.{Config}
use kvnorcom.System.{System}
use kvnorcom.System.Steps.{Gives, Gives-bind, Gives-any}
use kvnorcom.System.File.{File}
use kvnorcom.Files.{FInfo, new_info, check_entry}
use kvnorcom.Delivery.Saved.{get_file_list}
use kvnorcom.Collector.Invariant.{IsKept, check_for_new_observations-IsKept}
use kvnorcom.Collector.{
  FInfoList, listed, erase_gone, put_entry, check_file, check_files, poll_files,
  check_for_new_observations,
}

-- Every entry is that of one of the files.
abbrev pub AllListed : List File → FInfoList → Type 0
AllListed files l = Entries (λ name fi. listed name files ≡ true) l

erase_gone-AllListed : (files : List File) (l : FInfoList) → AllListed files (erase_gone files l)
unfolding erase_gone
erase_gone-AllListed files [] = tt
erase_gone-AllListed files ((name, fi) ∷ l) = elim (Bool-cases (listed name files)) [
  | inl there ↦ rw there (there, erase_gone-AllListed files l)
  | inr gone ↦ rw gone (erase_gone-AllListed files l)
]

-- The files are among `files`.
abbrev AllIn : List File → List File → Type 0
AllIn files [] = Unit
AllIn files (f ∷ fs) = (listed f.name files ≡ true) × AllIn files fs

AllIn-cons : (g : File) (files fs : List File) → AllIn files fs → AllIn (g ∷ files) fs
AllIn-cons g files [] h = tt
AllIn-cons g files (f ∷ fs) (here, h) = (ground (arith, here), AllIn-cons g files fs h)

AllIn-refl : (files : List File) → AllIn files files
AllIn-refl [] = tt
AllIn-refl (f ∷ fs) =
    (rw ((equal_iff f.name f.name).1 refl) refl, AllIn-cons f fs fs (AllIn-refl fs))

module _ {W : Type 0} (sys : System W) (conf : Config) where
  put_entry-AllListed :
      (files : List File) (name : Bytes) (l : FInfoList) (r : Option FInfo)
      → listed name files ≡ true
      → AllListed files l
      → AllListed files (put_entry sys conf name l r).0
  unfolding put_entry
  put_entry-AllListed files name l none here h = erase-Entries less_total _ name l h
  put_entry-AllListed files name l (some fi) here h =
      modify-Entries less_total _ name fi (λ _. fi) l h here (λ v k. here)

  check_file-AllListed :
      (files : List File) (f : File) (l : FInfoList) (w : W)
      → listed f.name files ≡ true
      → AllListed files l
      → Gives (λ (r : FInfoList × Bool). AllListed files r.0) (check_file sys conf f l w)
  unfolding check_file
  check_file-AllListed files f l w here h = elim (Option-cases (find less f.name l)) [
    | inl new ↦
        rw (check_file, new)
          (modify-Entries less_total _ f.name (new_info f) (λ _. new_info f) l h here (λ v k. here))
    | inr (fi, known) ↦
        rw (check_file, known)
          (Gives-any (λ (r : FInfoList × Bool). AllListed files r.0)
            (check_entry sys conf.debug conf.tmpdir f fi) _ w
            (λ r v. put_entry-AllListed files f.name l r here h))
  ]

  check_files-AllListed :
      (files fs : List File) (l : FInfoList) (found : Bool) (w : W)
      → AllIn files fs
      → AllListed files l
      → Gives (λ (r : FInfoList × Bool). AllListed files r.0) (check_files sys conf fs l found w)
  unfolding check_files
  check_files-AllListed files [] l found w i h = h
  check_files-AllListed files (f ∷ fs) l found w (here, i) h =
      Gives-bind (λ (r : FInfoList × Bool). AllListed files r.0)
        (λ (r : FInfoList × Bool). AllListed files r.0) (check_file sys conf f l) _ w
        (check_file-AllListed files f l w here h)
        (λ r v k. check_files-AllListed files fs r.0 (found || r.1) v i k)

  -- The directory can be read and holds files. Then a poll returns, whatever the system answers
  -- besides, a list in order stays so, and every file that it names is in the directory.
  pub check_for_new_observations-AllListed :
      (l : FInfoList) (f : File) (fs : List File) (w w' : W)
      → IsKept l
      → get_file_list sys conf conf.synopdir [] w ≡ returns (f ∷ fs, w')
      → Returns
          (λ (p : (FInfoList × Bool) × W). IsKept p.0.0 × AllListed (f ∷ fs) p.0.0)
          (check_for_new_observations sys conf l w)
  unfolding check_for_new_observations poll_files
  check_for_new_observations-AllListed l f fs w w' h e =
      Returns-both _ _ (check_for_new_observations sys conf l w)
        (check_for_new_observations-IsKept sys conf l w h)
        (rw (check_for_new_observations, e)
          (check_files-AllListed (f ∷ fs) (f ∷ fs) (erase_gone (f ∷ fs) l) false w'
            (AllIn-refl (f ∷ fs)) (erase_gone-AllListed (f ∷ fs) l)))
