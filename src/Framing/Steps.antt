-- ===== src/Framing/Steps.antt =====
-- One round of getMessage's loops on one character.
use kvnorcom.Prelude.{
  ℕ, zero, suc, ◌+◌, ◌<◌, ◌≡◌, refl, Bool, true, false, ◌&&◌, ◌||◌, some, [], ◌∷◌, ◌==◌, ltb,
  get_elem?, if◌then◌else◌, arith,
}
use kvnorcom.Prelude.Bytes.{Bytes, codes}
use kvnorcom.Outcome.{Outcome, returns}
use kvnorcom.Framing.{Scan, nnnn, match_nnnn, valid_char}

abbrev pub is_eol : ℕ → Bool
is_eol c = c == b'\n' || c == b'\r'

-- The characters of an end mark: line ends and N.
abbrev pub is_mark : ℕ → Bool
is_mark c = c == b'N' || is_eol c

-- No four N in a row, `k` of them having been read.
abbrev pub no_nnnn : ℕ → Bytes → Bool
no_nnnn k [] = true
no_nnnn k (c ∷ cs) = if c == b'N' then ltb k 3 && no_nnnn (k + 1) cs else no_nnnn 0 cs

pub nnnn_at : (k : ℕ) → k < 4 → get_elem? nnnn k ≡ some b'N'
nnnn_at zero h = refl
nnnn_at (suc zero) h = refl
nnnn_at (suc (suc zero)) h = refl
nnnn_at (suc (suc (suc zero))) h = refl
nnnn_at (suc (suc (suc (suc k)))) h = absurd (omega arith)

pub nnnn_ne_eol :
    (k c : ℕ) → k < 5 → is_eol c ≡ true → (n : ℕ) × (get_elem? nnnn k ≡ some n) × ((n == c) ≡ false)
nnnn_ne_eol zero c h e = (b'N', refl, ground arith)
nnnn_ne_eol (suc zero) c h e = (b'N', refl, ground arith)
nnnn_ne_eol (suc (suc zero)) c h e = (b'N', refl, ground arith)
nnnn_ne_eol (suc (suc (suc zero))) c h e = (b'N', refl, ground arith)
nnnn_ne_eol (suc (suc (suc (suc zero)))) c h e = (0, refl, ground arith)
nnnn_ne_eol (suc (suc (suc (suc (suc k))))) c h e = absurd (omega arith)

pub one_more : (x n : ℕ) → x + 1 + n ≡ x + suc n
one_more x n = omega arith

pub four : (x : ℕ) → x + 1 + 1 + 1 + 1 ≡ x + 4
four x = omega arith

pub is_eol-valid_char : (c : ℕ) → is_eol c ≡ true → valid_char c (codes "\r\n") ≡ true
unfolding valid_char
is_eol-valid_char c h = ground arith

pub not_mark :
    (c : ℕ)
    → is_mark c ≡ false
    → ((b'N' == c) ≡ false) × ((c == b'\n') ≡ false) × ((c == b'\r') ≡ false)
not_mark c h = ground arith

-- The loop's body at each kind of character, before the fourth N.
pub match_other :
    (v : Scan)
    → v.innn < 4
    → is_mark v.ch ≡ false
    → match_nnnn v ≡ returns (record v { innn = 0; rn_count = 0; count = 0 })
unfolding match_nnnn
match_other v h e = let (n, l, r) = not_mark v.ch e in rw (nnnn_at v.innn h) (rw n (rw l (rw r)))

pub match_eol :
    (v : Scan)
    → v.innn < 5
    → is_eol v.ch ≡ true
    → match_nnnn v ≡ returns (record v { innn = 0; rn_count = v.rn_count + 1; count = v.count + 1 })
unfolding match_nnnn
match_eol v h e = let (n, at, ne) = nnnn_ne_eol v.innn v.ch h e in rw at (rw ne (eol_branch v.ch e))
  where
    eol_branch :
        (c : ℕ)
        → is_eol c ≡ true
        → ◌≡◌ {A = Outcome Scan}
            (returns (
              if c == b'\n' || c == b'\r'
              then record v { innn = 0; rn_count = v.rn_count + 1; count = v.count + 1 }
              else record v { innn = 0; rn_count = 0; count = 0 }))
            (returns (record v { innn = 0; rn_count = v.rn_count + 1; count = v.count + 1 }))
    eol_branch c h = rw h

pub match_n :
    (v : Scan)
    → v.innn < 4
    → v.ch ≡ b'N'
    → match_nnnn v ≡ returns (record v { innn = v.innn + 1; count = v.count + 1 })
unfolding match_nnnn
match_n v h e = rw (nnnn_at v.innn h) (rw e)
