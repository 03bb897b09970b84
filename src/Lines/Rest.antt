-- ===== src/Lines/Rest.antt =====
-- The loops over a stream of src/WMORaport.cc: how much of it each of them leaves.
use kvnorcom.Prelude.{
  ℕ, zero, suc, ◌≤◌, ◌<◌, ◌≡◌, refl, Bool, true, ◌||◌, inl, inr, Bool-cases, [], ◌∷◌, ◌++◌, ◌==◌,
  length, arith,
}
use kvnorcom.Prelude.Bytes.{Bytes, codes}
use kvnorcom.Outcome.{returns, Returns, Returns-bind, Returns-map}
use kvnorcom.Stream.{IStream, reading, ended, get, putback_back, getline, line_ahead, fails}
use kvnorcom.Framing.{valid_char}
use kvnorcom.Lines.{skip, read_line, skip_empty_lines, is_alnum}

-- Fewer than `n` characters are left in a stream in good state, or its end has been met.
pub data Rest (n : ℕ) (s : IStream) : Type 0 where
  live : (w : Bool) (b a : Bytes) → s ≡ reading w b a → length a < n → Rest n s
  over : s.eofbit ≡ true → Rest n s

pub Rest-mono : {s : IStream} (m n : ℕ) → m ≤ n → Rest m s → Rest n s
Rest-mono m n h (live w b a e l) = Rest.live w b a e (omega arith)
Rest-mono m n h (over e) = Rest.over e

skip-Rest_live :
    (f n : ℕ) (what : Bytes) (w : Bool) (b a : Bytes)
    → length a < n
    → length a < f
    → Returns (Rest n) (skip f what (reading w b a))
unfolding skip get
skip-Rest_live zero n what w b a h l = absurd (omega arith)
skip-Rest_live (suc f) n what w b [] h l = Rest.over refl
skip-Rest_live (suc f) n what w b (c ∷ cs) h l = elim (Bool-cases (valid_char c what)) [
  | inl again ↦ rw again (skip-Rest_live f n what w (c ∷ b) cs (omega arith) (omega arith))
  | inr stop ↦ rw (stop, putback_back w c b cs) (Rest.live w b (c ∷ cs) refl h)
]

pub skip_over :
    (f : ℕ) (what : Bytes) (s : IStream) → s.eofbit ≡ true → skip (suc f) what s ≡ returns s
unfolding skip
skip_over f what s e = ground arith

pub skip-Rest :
    (f n : ℕ) (what : Bytes) (s : IStream)
    → Rest n s
    → n ≤ f
    → 0 < f
    → Returns (Rest n) (skip f what s)
skip-Rest zero n what s r h p = absurd (omega arith)
skip-Rest (suc f) n what s (over e) h p = rw (skip_over f what s e) (Rest.over e)
skip-Rest (suc f) n what s (live w b a e l) h p =
    rw e (skip-Rest_live (suc f) n what w b a l (omega arith))

pub read_line_over :
    (f : ℕ) (line : Bytes) (ch : ℕ) (s : IStream)
    → 0 < f
    → s.eofbit ≡ true
    → read_line f line ch s ≡ returns (line, s)
unfolding read_line
read_line_over zero line ch s p e = absurd (omega arith)
read_line_over (suc f) line ch s p e = ground arith

-- Where a line has been asked for, at least one character is gone, or the end has been met.
read_line-Rest_live :
    (f n : ℕ) (line : Bytes) (ch : ℕ) (w : Bool) (b a : Bytes)
    → length a ≤ n
    → suc n < f
    → Returns (λ (p : Bytes × IStream). Rest n p.1) (read_line f line ch (reading w b a))
unfolding read_line get
read_line-Rest_live zero n line ch w b a h l = absurd (omega arith)
read_line-Rest_live (suc zero) n line ch w b a h l = absurd (omega arith)
read_line-Rest_live (suc (suc f)) n line ch w b [] h l =
    elim (Bool-cases (is_alnum ch || valid_char ch (codes " /="))) [
      | inl text ↦ rw text (Rest.over refl)
      | inr other ↦ rw (other, skip_over f (codes "\t\r\n") (ended w b) refl) (Rest.over refl)
    ]
read_line-Rest_live (suc (suc f)) n line ch w b (c ∷ cs) h l =
    elim (Bool-cases (is_alnum c || valid_char c (codes " /="))) [
      | inl text ↦ rw text (
          Returns-map (λ (p : Bytes × IStream). Rest (length cs) p.1)
            (λ (p : Bytes × IStream). Rest n p.1)
            (read_line (suc f) (line ++ c ∷ []) c (reading w (c ∷ b) cs))
            (λ p r. Rest-mono (length cs) n (omega arith) r)
            (read_line-Rest_live (suc f) (length cs) (line ++ c ∷ []) c w (c ∷ b) cs (omega arith)
              (omega arith)))
      | inr other ↦ rw other (
          Returns-bind (Rest n) (λ (p : Bytes × IStream). Rest n p.1)
            (skip (suc f) (codes "\t\r\n") (reading w (c ∷ b) cs)) (λ s. returns (line, s))
            (skip-Rest (suc f) n (codes "\t\r\n") (reading w (c ∷ b) cs)
              (Rest.live w (c ∷ b) cs refl (omega arith)) (omega arith) (omega arith))
            (λ s r. r))
    ]

-- skipEmptyLines takes a character at least, or meets the end.
pub skip_empty_lines-Rest :
    (junk f n : ℕ) (s : IStream)
    → Rest (suc n) s
    → suc n < f
    → Returns (λ (p : Bytes × IStream). Rest n p.1) (skip_empty_lines junk f s)
unfolding skip_empty_lines
skip_empty_lines-Rest junk f n s r l =
    Returns-bind (Rest (suc n)) (λ (p : Bytes × IStream). Rest n p.1) (skip f (codes " \t\r\n") s)
      (read_line f [] junk) (skip-Rest f (suc n) (codes " \t\r\n") s r (omega arith) (omega arith))
      next
  where
    next :
        (s : IStream)
        → Rest (suc n) s
        → Returns (λ (p : Bytes × IStream). Rest n p.1) (read_line f [] junk s)
    next s (live w b a e h) = rw e (read_line-Rest_live f n [] junk w b a (omega arith) l)
    next s (over e) = rw (read_line_over f [] junk s (omega arith) e) (Rest.over e)

line_ahead-Rest :
    (n : ℕ) (line : Bytes) (w : Bool) (b all a : Bytes)
    → length a ≤ n
    → Rest n (line_ahead a line (reading w b all)).1
unfolding line_ahead
line_ahead-Rest n line w b all [] h = Rest.over refl
line_ahead-Rest n line w b all (c ∷ cs) h = elim (Bool-cases (c == b'\n')) [
  | inl end ↦ rw end (Rest.live w (c ∷ b) cs refl (omega arith))
  | inr inside ↦ rw inside (line_ahead-Rest n (line ++ c ∷ []) w (c ∷ b) all cs (omega arith))
]

-- getline takes a character at least, or meets the end.
pub getline-Rest : (n : ℕ) (old : Bytes) (s : IStream) → Rest (suc n) s → Rest n (getline old s).1
unfolding getline
getline-Rest n old s (live w b a e h) = rw e (line_ahead-Rest n [] w b a a (omega arith))
getline-Rest n old s (over e) = simp e (Rest.over refl)

-- At the end of the input getline fails.
pub getline_over : (old : Bytes) (s : IStream) → s.eofbit ≡ true → fails (getline old s).1 ≡ true
unfolding getline
getline_over old s e = ground arith
