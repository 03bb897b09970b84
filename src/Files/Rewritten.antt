-- ===== src/Files/Rewritten.antt =====
-- A file whose sent part was written over.
use kvnorcom.Prelude.{
  ℕ, ◌≡◌, ◌≢◌, sym, ap, ◌∙◌, inl, inr, [], ◌∷◌, ◌++◌, length, take, length-append, take-append,
  arith,
}
use kvnorcom.Prelude.Bytes.{Bytes, AreBytes}
use kvnorcom.Crc.{crc_ccitt}
use kvnorcom.Crc.Detect.{crc_ccitt-neighbours}
use kvnorcom.Files.{FInfo, new_obs_part}
use kvnorcom.Files.Growth.{Sent, new_part_other}

-- The entry records a text as sent. Two neighbouring bytes of it have changed in the file, one of
-- them or both, and `more` may have been appended: the poll hands on the whole file.
pub new_obs_part-rewritten :
    (xs ys more : Bytes) (a b c d : ℕ) (fi : FInfo)
    → AreBytes xs
    → AreBytes ys
    → AreBytes (a ∷ b ∷ [])
    → AreBytes (c ∷ d ∷ [])
    → a ∷ b ∷ [] ≢ c ∷ d ∷ []
    → Sent (xs ++ a ∷ b ∷ ys) fi
    → (new_obs_part ((xs ++ c ∷ d ∷ ys) ++ more) fi).0 ≡ (xs ++ c ∷ d ∷ ys) ++ more
new_obs_part-rewritten xs ys more a b c d fi before behind old new different (o, s) =
    elim (new_part_other ((xs ++ c ∷ d ∷ ys) ++ more) fi) [
      | inr whole ↦ whole
      | inl (p, l, same) ↦ absurd (
          crc_ccitt-neighbours xs ys a b c d before behind old new different (
            sym s
            ∙ sym same
            ∙ ap crc_ccitt (
                ap (λ (n : ℕ). take n ((xs ++ c ∷ d ∷ ys) ++ more)) {y = length (xs ++ c ∷ d ∷ ys)}
                  (o ∙ omega (arith, length-append xs (a ∷ b ∷ ys), length-append xs (c ∷ d ∷ ys)))
                ∙ take-append (xs ++ c ∷ d ∷ ys) more)))
    ]
