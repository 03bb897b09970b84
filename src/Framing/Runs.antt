-- ===== src/Framing/Runs.antt =====
-- The run of getMessage's loops over whole stretches of the input.
use native.Mathlib.Nat.{add-zero}
use kvnorcom.Prelude.{
  ℕ, suc, ◌+◌, ◌<◌, ◌≡◌, refl, ◌∙◌, Bool, true, false, [], ◌∷◌, ◌++◌, ◌==◌, ==_iff, lt→ltb, inl,
  inr, Bool-cases, length, all, all-head, all-tail, rounds, append_assoc, append-nil, arith,
}
use kvnorcom.Prelude.Bytes.{Bytes, codes, onto, last_or}
use kvnorcom.Stream.{reading, ended, get, putback}
use kvnorcom.Framing.{Scan, read_message, read_end, send_message}
use kvnorcom.Framing.Steps.{
  is_eol, is_mark, no_nnnn, nnnn_at, one_more, four, is_eol-valid_char, match_other, match_eol,
  match_n,
}

module _ (w : Bool) where
  abbrev pub scan : ℕ → ℕ → ℕ → Bytes → ℕ → Bytes → Bytes → Scan
  scan k rn count sent ch b a = record {
    innn = k;
    rn_count = rn;
    count = count;
    sent = sent;
    ch = ch;
    stream = reading w b a;
  }

  pub step_other :
      (f k rn count : ℕ) (sent : Bytes) (ch : ℕ) (b : Bytes) (c : ℕ) (a : Bytes)
      → k < 4
      → is_mark c ≡ false
      → read_message (suc f) (scan k rn count sent ch b (c ∷ a))
        ≡ read_message f (scan 0 0 0 (sent ++ c ∷ []) c (c ∷ b) a)
  unfolding read_message get
  step_other f k rn count sent ch b c a h e =
      rw (match_other (scan k rn count (sent ++ c ∷ []) c (c ∷ b) a) h e)

  pub step_eol :
      (f k rn count : ℕ) (sent : Bytes) (ch : ℕ) (b : Bytes) (c : ℕ) (a : Bytes)
      → k < 4
      → is_eol c ≡ true
      → read_message (suc f) (scan k rn count sent ch b (c ∷ a))
        ≡ read_message f (scan 0 (rn + 1) (count + 1) (sent ++ c ∷ []) c (c ∷ b) a)
  unfolding read_message get
  step_eol f k rn count sent ch b c a h e =
      rw (match_eol (scan k rn count (sent ++ c ∷ []) c (c ∷ b) a) (omega arith) e)

  pub step_n :
      (f k rn count : ℕ) (sent : Bytes) (ch : ℕ) (b : Bytes) (c : ℕ) (a : Bytes)
      → k < 3
      → c ≡ b'N'
      → read_message (suc f) (scan k rn count sent ch b (c ∷ a))
        ≡ read_message f (scan (k + 1) rn (count + 1) (sent ++ c ∷ []) c (c ∷ b) a)
  unfolding read_message get
  step_n f k rn count sent ch b c a h e =
      rw (match_n (scan k rn count (sent ++ c ∷ []) c (c ∷ b) a) (omega arith) e)
        (rw (nnnn_at (k + 1) (omega arith)))

  pub step_fourth :
      (f rn count : ℕ) (sent : Bytes) (ch : ℕ) (b a : Bytes)
      → 2 < rn
      → read_message (suc f) (scan 3 rn count sent ch b (b'N' ∷ a))
        ≡ read_end f (scan 4 0 (count + 1) (sent ++ b'N' ∷ []) b'N' (b'N' ∷ b) a)
  unfolding read_message get
  step_fourth f rn count sent ch b a h =
      rw (match_n (scan 3 rn count (sent ++ b'N' ∷ []) b'N' (b'N' ∷ b) a) (omega arith) refl)
        (rw (lt→ltb 2 rn h))

  -- A stretch with no four N in a row, from a state with `k` of them: the loop goes through it.
  pub read_body :
      (f k rn count : ℕ) (sent : Bytes) (ch : ℕ) (b body a : Bytes)
      → k < 4
      → no_nnnn k body ≡ true
      → (k' rn' count' : ℕ) × (k' < 4)
        × (read_message (rounds body f) (scan k rn count sent ch b (body ++ a))
            ≡ read_message f (scan k' rn' count' (sent ++ body) (last_or ch body) (onto b body) a))
  read_body f k rn count sent ch b [] a h e = (k, rn, count, h, rw append-nil)
  read_body f k rn count sent ch b (c ∷ cs) a h e = elim (Bool-cases (c == b'N')) [
    | inl n ↦
        behind (k + 1) rn (count + 1)
          (step_n (rounds cs f) k rn count sent ch b c (cs ++ a) (ground arith) (ground arith))
          (read_body f (k + 1) rn (count + 1) (sent ++ c ∷ []) c (c ∷ b) cs a (ground arith)
            (ground arith))
    | inr other ↦ elim (Bool-cases (is_eol c)) [
      | inl eol ↦
          behind 0 (rn + 1) (count + 1)
            (step_eol (rounds cs f) k rn count sent ch b c (cs ++ a) h eol)
            (read_body f 0 (rn + 1) (count + 1) (sent ++ c ∷ []) c (c ∷ b) cs a (omega arith)
              (ground arith))
      | inr text ↦
          behind 0 0 0
            (step_other (rounds cs f) k rn count sent ch b c (cs ++ a) h (rw (other, text)))
            (read_body f 0 0 0 (sent ++ c ∷ []) c (c ∷ b) cs a (omega arith) (ground arith))
    ]
  ]
    where
      behind :
          (k₁ rn₁ count₁ : ℕ)
          → read_message (rounds (c ∷ cs) f) (scan k rn count sent ch b (c ∷ (cs ++ a)))
            ≡ read_message (rounds cs f) (scan k₁ rn₁ count₁ (sent ++ c ∷ []) c (c ∷ b) (cs ++ a))
          → ((k' rn' count' : ℕ) × (k' < 4)
              × (read_message
                    (rounds cs f)
                    (scan k₁ rn₁ count₁ (sent ++ c ∷ []) c (c ∷ b) (cs ++ a))
                  ≡ read_message f (
                      scan k' rn' count'
                        ((sent ++ c ∷ []) ++ cs)
                        (last_or c cs)
                        (onto (c ∷ b) cs)
                        a)))
          → (k' rn' count' : ℕ) × (k' < 4)
            × (read_message (rounds (c ∷ cs) f) (scan k rn count sent ch b (c ∷ (cs ++ a)))
                ≡ read_message f
                    (scan k' rn' count' (sent ++ c ∷ cs) (last_or c cs) (onto (c ∷ b) cs) a))
      behind k₁ rn₁ count₁ step (k', rn', count', lt, rest) =
          (k', rn', count', lt, step ∙ rest ∙ rw append_assoc)

  pub read_eols :
      (f rn count : ℕ) (sent : Bytes) (ch : ℕ) (b es a : Bytes)
      → all is_eol es ≡ true
      → read_message (rounds es f) (scan 0 rn count sent ch b (es ++ a))
        ≡ read_message f
            (scan 0 (rn + length es) (count + length es) (sent ++ es) (last_or ch es) (onto b es) a)
  read_eols f rn count sent ch b [] a h = rw (append-nil, add-zero rn, add-zero count)
  read_eols f rn count sent ch b (c ∷ cs) a h =
      step_eol (rounds cs f) 0 rn count sent ch b c (cs ++ a) (omega arith) (all-head is_eol c cs h)
      ∙ read_eols f (rn + 1) (count + 1) (sent ++ c ∷ []) c (c ∷ b) cs a (all-tail is_eol c cs h)
      ∙ cc (one_more rn (length cs), one_more count (length cs), append_assoc sent (c ∷ []) cs)

  -- Three line ends or more in front of NNNN: the search is over.
  pub read_mark :
      (f rn count : ℕ) (sent : Bytes) (ch : ℕ) (b a : Bytes)
      → 2 < rn
      → read_message (suc (suc (suc (suc f)))) (scan 0 rn count sent ch b (codes "NNNN" ++ a))
        ≡ read_end f (scan 4 0 (count + 4) (sent ++ codes "NNNN") b'N' (onto b (codes "NNNN")) a)
  read_mark f rn count sent ch b a h =
      step_n (suc (suc (suc f))) 0 rn count sent ch b b'N' _ (omega arith) refl
      ∙ step_n (suc (suc f)) 1 rn (count + 1) _ b'N' _ b'N' _ (omega arith) refl
      ∙ step_n (suc f) 2 rn (count + 1 + 1) _ b'N' _ b'N' _ (omega arith) refl
      ∙ step_fourth f rn (count + 1 + 1 + 1) _ b'N' _ a h
      ∙ cc (four count, collect sent)
    where
      collect :
          (xs : Bytes)
          → (((xs ++ b'N' ∷ []) ++ b'N' ∷ []) ++ b'N' ∷ []) ++ b'N' ∷ [] ≡ xs ++ codes "NNNN"
      collect xs = simp append_assoc

  pub step_end :
      (f k rn count : ℕ) (sent : Bytes) (ch : ℕ) (b : Bytes) (c : ℕ) (a : Bytes)
      → (ch == b'\n') ≡ false
      → is_eol c ≡ true
      → read_end (suc f) (scan k rn count sent ch b (c ∷ a))
        ≡ read_end f (scan k (rn + 1) (count + 1) (sent ++ c ∷ []) c (c ∷ b) a)
  unfolding read_end get
  step_end f k rn count sent ch b c a e h = rw (e, is_eol-valid_char c h)

  -- The carriage returns behind NNNN.
  pub read_end_crs :
      (f k rn count : ℕ) (sent : Bytes) (ch : ℕ) (b crs a : Bytes)
      → (ch == b'\n') ≡ false
      → all (λ c. c == b'\r') crs ≡ true
      → read_end (rounds crs f) (scan k rn count sent ch b (crs ++ a))
        ≡ read_end f (
            scan k
              (rn + length crs)
              (count + length crs)
              (sent ++ crs)
              (last_or ch crs)
              (onto b crs)
              a)
  read_end_crs f k rn count sent ch b [] a e h = rw (append-nil, add-zero rn, add-zero count)
  read_end_crs f k rn count sent ch b (c ∷ cs) a e h =
      step_end (rounds cs f) k rn count sent ch b c (cs ++ a) e (ground arith)
      ∙ read_end_crs f k (rn + 1) (count + 1) (sent ++ c ∷ []) c (c ∷ b) cs a (ground arith)
          (ground arith)
      ∙ cc (one_more rn (length cs), one_more count (length cs), append_assoc sent (c ∷ []) cs)

  -- Behind the '\n' that ends the mark: the next character goes back.
  pub read_end_next :
      (f k rn count : ℕ) (sent b : Bytes) (c : ℕ) (a : Bytes)
      → 0 < rn
      → read_end (suc f) (scan k rn count sent b'\n' b (c ∷ a))
        ≡ send_message (scan k rn count sent b'\n' b (c ∷ a)) (reading w b (c ∷ a))
  unfolding read_end get putback send_message
  read_end_next f k rn count sent b c a h = rw (lt→ltb 0 rn h, (==_iff c c).1 refl)

  -- At the end of the input.
  pub read_end_eof :
      (f k rn count : ℕ) (sent : Bytes) (ch : ℕ) (b : Bytes)
      → 0 < rn
      → read_end (suc f) (scan k rn count sent ch b [])
        ≡ send_message (scan k rn count sent ch b []) (ended w b)
  unfolding read_end get send_message
  read_end_eof f k rn count sent ch b h = rw (lt→ltb 0 rn h)
