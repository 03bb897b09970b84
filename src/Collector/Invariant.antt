-- ===== src/Collector/Invariant.antt =====
-- What holds of the list of known files behind every poll and every collection.
use kvnorcom.Prelude.{
  ◌≡◌, refl, Bool, false, ◌||◌, Bool-cases, Option-cases, inl, inr, Option, none, some, List, [],
  ◌∷◌, is_empty, arith,
}
use kvnorcom.Prelude.Bytes.{Bytes}
use kvnorcom.Map.{find, modify}
use kvnorcom.Map.Order.{less, less-StrictWeakOrder, less_total}
use kvnorcom.Map.Sorted.{IsAbove, IsSorted, modify-IsSorted, erase-IsSorted}
use kvnorcom.Map.Entries.{Entries, find-Entries, modify-Entries, erase-Entries}
use kvnorcom.Outcome.{returns, Returns, Returns-bind}
use kvnorcom.Config.{Config}
use kvnorcom.System.{System}
use kvnorcom.System.File.{File}
use kvnorcom.Files.{FInfo, new_info, check_entry}
use kvnorcom.Files.Kept.{IsEntry, OrGone, check_entry-IsEntry}
use kvnorcom.Delivery.Saved.Names.{AllNamed, get_file_list-AllNamed}
use kvnorcom.Collector.{
  FInfoList, listed, erase_gone, put_entry, check_file, check_files, poll_files,
  check_for_new_observations,
}

abbrev pub IsKept : FInfoList → Type 0
IsKept l = IsSorted less l × Entries IsEntry l

erase_gone-IsAbove :
    (files : List File) (k : Bytes) (l : FInfoList)
    → IsAbove less k l
    → IsAbove less k (erase_gone files l)
unfolding erase_gone
erase_gone-IsAbove files k [] h = tt
erase_gone-IsAbove files k ((name, fi) ∷ l) (b, h) = elim (Bool-cases (listed name files)) [
  | inl there ↦ rw there (b, erase_gone-IsAbove files k l h)
  | inr gone ↦ rw gone (erase_gone-IsAbove files k l h)
]

erase_gone-IsKept : (files : List File) (l : FInfoList) → IsKept l → IsKept (erase_gone files l)
unfolding erase_gone
erase_gone-IsKept files [] h = (tt, tt)
erase_gone-IsKept files ((name, fi) ∷ l) ((above, s), (p, h)) =
    let rest = erase_gone-IsKept files l (s, h) in
    elim (Bool-cases (listed name files)) [
      | inl there ↦ rw there ((erase_gone-IsAbove files name l above, rest.0), (p, rest.1))
      | inr gone ↦ rw gone rest
    ]

modify-IsKept :
    (name : Bytes) (fi : FInfo) (l : FInfoList)
    → IsKept l
    → IsEntry name fi
    → IsKept (modify less name fi (λ _. fi) l)
modify-IsKept name fi l (s, h) p = (
  modify-IsSorted less-StrictWeakOrder name fi (λ _. fi) l s,
  modify-Entries less_total IsEntry name fi (λ _. fi) l h p (λ v q. p),
)

module _ {W : Type 0} (sys : System W) (conf : Config) where
  put_entry-IsKept :
      (name : Bytes) (l : FInfoList) (p : Option FInfo × W)
      → IsKept l
      → OrGone sys conf.debug conf.tmpdir name p
      → IsKept (put_entry sys conf name l p.0).0
  unfolding put_entry
  put_entry-IsKept name l (none, w) (s, h) p =
      (erase-IsSorted less-StrictWeakOrder name l s, erase-Entries less_total IsEntry name l h)
  put_entry-IsKept name l (some fi, w) h p = modify-IsKept name fi l h p

  check_file-IsKept :
      (f : File) (l : FInfoList) (w : W)
      → is_empty f.name ≡ false
      → IsKept l
      → Returns (λ (p : (FInfoList × Bool) × W). IsKept p.0.0) (check_file sys conf f l w)
  unfolding check_file new_info
  check_file-IsKept f l w named h = elim (Option-cases (find less f.name l)) [
    | inl new ↦
        rw (check_file, new)
          (modify-IsKept f.name (new_info f) l h (refl, named, omega arith, refl))
    | inr (fi, known) ↦
        rw (check_file, known)
          (Returns-bind (OrGone sys conf.debug conf.tmpdir f.name)
            (λ (p : (FInfoList × Bool) × W). IsKept p.0.0)
            (check_entry sys conf.debug conf.tmpdir f fi w)
            (λ r. returns (put_entry sys conf f.name l r.0, r.1))
            (check_entry-IsEntry sys conf.debug conf.tmpdir f fi w
              (find-Entries less_total IsEntry f.name fi l h.1 known))
            (λ r p. put_entry-IsKept f.name l r h p))
  ]

  check_files-IsKept :
      (files : List File) (l : FInfoList) (found : Bool) (w : W)
      → AllNamed files
      → IsKept l
      → Returns
          (λ (p : (FInfoList × Bool) × W). IsKept p.0.0)
          (check_files sys conf files l found w)
  unfolding check_files
  check_files-IsKept [] l found w named h = h
  check_files-IsKept (f ∷ fs) l found w (n, named) h =
      Returns-bind (λ (p : (FInfoList × Bool) × W). IsKept p.0.0)
        (λ (p : (FInfoList × Bool) × W). IsKept p.0.0) (check_file sys conf f l w) _
        (check_file-IsKept f l w n h)
        (λ r k. check_files-IsKept fs r.0.0 (found || r.0.1) r.1 named k)

  poll_files-IsKept :
      (l : FInfoList) (files : List File) (w : W)
      → AllNamed files
      → IsKept l
      → Returns (λ (p : (FInfoList × Bool) × W). IsKept p.0.0) (poll_files sys conf l files w)
  unfolding poll_files
  poll_files-IsKept l [] w named h = h
  poll_files-IsKept l (f ∷ fs) w named h =
      check_files-IsKept (f ∷ fs) (erase_gone (f ∷ fs) l) false w named
        (erase_gone-IsKept (f ∷ fs) l h)

  -- A poll of the directory returns, whatever the system answers, and a list in order stays so:
  -- sorted, each entry under the name of its file and with a checksum of 32 bits, and none that is
  -- collected with a copy.
  pub check_for_new_observations-IsKept :
      (l : FInfoList) (w : W)
      → IsKept l
      → Returns
          (λ (p : (FInfoList × Bool) × W). IsKept p.0.0)
          (check_for_new_observations sys conf l w)
  unfolding check_for_new_observations
  check_for_new_observations-IsKept l w h =
      Returns-bind (λ (p : List File × W). AllNamed p.0)
        (λ (p : (FInfoList × Bool) × W). IsKept p.0.0) _ _
        (get_file_list-AllNamed sys conf conf.synopdir [] w)
        (λ p named. poll_files-IsKept l p.0 p.1 named h)
