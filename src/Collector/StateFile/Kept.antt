-- ===== src/Collector/StateFile/Kept.antt =====
-- What readFInfoList reads is in order.
use kvnorcom.Prelude.{
  ℕ, ◌<◌, ◌^◌, ◌≡◌, refl, false, Bool-cases, Option-cases, inl, inr, some, List, [], ◌∷◌, is_empty,
}
use kvnorcom.Prelude.Bytes.{Bytes, codes}
use kvnorcom.Map.Order.{less-StrictWeakOrder, less_total}
use kvnorcom.Map.Sorted.{modify-IsSorted}
use kvnorcom.Map.Entries.{modify-Entries}
use kvnorcom.System.{System}
use kvnorcom.System.Steps.{Gives, Gives-bind}
use kvnorcom.System.File.{File}
use kvnorcom.Files.{assign_info}
use kvnorcom.Files.Kept.{IsEntry}
use kvnorcom.Collector.{FInfoList}
use kvnorcom.Collector.Invariant.{IsKept}
use kvnorcom.Collector.StateFile.{
  Reader, read_finfo_list, read_lines, with_file, with_numbers, saved_info, lines_of,
}

module _ {W : Type 0} (sys : System W) (reader : Reader)
    (in_range : (ds : Bytes) (n : ℕ) → reader.cast_unsigned ds ≡ some n → n < 2 ^ 32) where
  with_numbers-IsKept :
      (f : File) (offset crc : Bytes) (l : FInfoList) (w : W)
      → is_empty f.name ≡ false
      → IsKept l
      → Gives IsKept (with_numbers sys reader f offset crc l w)
  unfolding with_numbers saved_info assign_info
  with_numbers-IsKept f offset crc l w named (s, h) =
      elim (Option-cases (reader.cast_long offset)) [
        | inl bad ↦ rw (with_numbers, bad) tt
        | inr (o, read) ↦ elim (Option-cases (reader.cast_unsigned crc)) [
          | inl bad ↦ rw (with_numbers, read, bad) tt
          | inr (c, e) ↦
              rw (with_numbers, read, e)
                (
                  modify-IsSorted less-StrictWeakOrder f.name _ _ l s,
                  modify-Entries less_total IsEntry f.name _ _ l h
                      (refl, named, in_range crc c e, refl)
                      (λ v p. (refl, named, in_range crc c e, refl)),
                )
        ]
      ]

  with_file-IsKept :
      (name offset crc : Bytes) (l : FInfoList) (w : W)
      → IsKept l
      → Gives IsKept (with_file sys reader name offset crc l w)
  unfolding with_file
  with_file-IsKept name offset crc l w h = elim (Bool-cases (is_empty name)) [
    | inl unnamed ↦ rw unnamed h
    | inr named ↦ elim (Option-cases (sys.stat name w).0) [
      | inl gone ↦ rw (named, gone) h
      | inr (st, there) ↦
          rw (named, there)
            (with_numbers-IsKept (record { name = name; stat = st }) offset crc l
              (sys.stat name w).1 named h)
    ]
  ]

  read_lines-IsKept :
      (lines : List Bytes) (l : FInfoList) (w : W)
      → IsKept l
      → Gives IsKept (read_lines sys reader lines l w)
  unfolding read_lines
  read_lines-IsKept [] l w h = h
  read_lines-IsKept (line ∷ lines) l w h =
      elim (Option-cases (reader.regex_match (codes "(.*):(.*):(.*)") line)) [
        | inl other ↦ rw (read_lines, other) (read_lines-IsKept lines l w h)
        | inr (what, matched) ↦
            rw (read_lines, matched)
              (Gives-bind IsKept IsKept (with_file sys reader (what 1) (what 2) (what 3) l) _ w
                (with_file-IsKept (what 1) (what 2) (what 3) l w h)
                (λ k w' h'. read_lines-IsKept lines k w' h'))
      ]

  pub read_finfo_list-IsKept :
      (file : Bytes) (w : W) → Gives IsKept (read_finfo_list sys reader file [] w)
  unfolding read_finfo_list
  read_finfo_list-IsKept file w = elim (Option-cases (sys.read_stream file w).0) [
    | inl closed ↦ rw closed (tt, tt)
    | inr (p, opened) ↦ rw opened (read_lines-IsKept (lines_of [] p.0) [] _ (tt, tt))
  ]
