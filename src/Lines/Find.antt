-- ===== src/Lines/Find.antt =====
-- The first place of a character in a text.
use kvnorcom.Prelude.{
  ℕ, suc, ◌+◌, ◌≡◌, refl, ap, ◌∙◌, true, ==_iff, some, [], ◌∷◌, ◌++◌, length, drop, arith,
}
use kvnorcom.Prelude.Bytes.{Bytes, lacks}
use kvnorcom.Lines.{find_char}

pub find_char-append :
    (c : ℕ) (xs ys : Bytes) → lacks c xs ≡ true → find_char c (xs ++ c ∷ ys) ≡ some (length xs)
unfolding find_char
find_char-append c [] ys h = rw ((==_iff c c).1 refl) refl
find_char-append c (x ∷ xs) ys h = ground (arith, find_char-append c xs ys)

-- What stands behind the character.
pub drop_one-append : (d : ℕ) (xs ys : Bytes) → drop (length xs + 1) (xs ++ d ∷ ys) ≡ ys
drop_one-append d [] ys = refl
drop_one-append d (x ∷ xs) ys =
    ap (λ (n : ℕ). drop n (x ∷ (xs ++ d ∷ ys))) {y = suc (length xs + 1)} (omega arith)
    ∙ drop_one-append d xs ys
