-- ===== src/Lines/Total.antt =====
-- readReport and readToEof return, if they are given a round for each character and some more.
use mathlib.Core.Path.{subst}
use kvnorcom.Prelude.{
  ℕ, zero, suc, ◌+◌, ◌≤◌, ◌<◌, ◌≡◌, refl, sym, Bool, true, false, not, ◌&&◌, inl, inr, Bool-cases,
  Option-cases, none, some, [], ◌∷◌, ◌++◌, ltb, length, ap, take-append-drop, length-append,
  length-take, take, drop, is_empty, arith,
}
use kvnorcom.Prelude.Bytes.{Bytes, codes, onto}
use kvnorcom.Outcome.{Outcome, returns, Returns, Returns-bind, Returns-map}
use kvnorcom.Stream.{IStream, getline, fails, read}
use kvnorcom.Lines.{
  TextLibrary, Report, skip_empty_lines, report_loop, after_empty_lines, end_of_report, read_report,
  find_char, read_to_eof,
}
use kvnorcom.Lines.Rest.{
  Rest, live, over, Rest-mono, skip_empty_lines-Rest, skip_over, read_line_over, getline-Rest,
  getline_over,
}

module _ (lib : TextLibrary) where
  abbrev pub Leaves : ℕ → Report → Type 0
  Leaves n r = Rest n r.stream

  end_of_report-stream : (buf : Bytes) (s : IStream) → (end_of_report lib buf s).stream ≡ s
  unfolding end_of_report
  end_of_report-stream buf s = ground arith

  -- One round: the line has an '=', or the next line fails, or the loop goes on with it.
  report_loop_mark :
      (f i : ℕ) (buf line : Bytes) (s : IStream)
      → find_char b'=' (lib.trim_right line) ≡ some i
      → (r : Report) × (report_loop lib (suc f) buf line s ≡ returns r) × (r.stream ≡ s)
  unfolding report_loop
  report_loop_mark f i buf line s e = (
    record {
      filled = true;
      text = buf ++ (take (i + 1) (lib.trim_right line) ++ b'\n' ∷ []);
      stream = s;
    },
    ground arith,
    refl,
  )

  report_loop_end :
      (f : ℕ) (buf line : Bytes) (s : IStream)
      → find_char b'=' (lib.trim_right line) ≡ none
      → fails (getline (lib.trim_right line) s).1 ≡ true
      → (r : Report) × (report_loop lib (suc f) buf line s ≡ returns r)
        × (r.stream ≡ (getline (lib.trim_right line) s).1)
  unfolding report_loop
  report_loop_end f buf line s e failed = (
    end_of_report lib (buf ++ (lib.trim_right line ++ b'\n' ∷ []))
        (getline (lib.trim_right line) s).1,
    ground arith,
    end_of_report-stream _ _,
  )

  pub report_loop_on :
      (f : ℕ) (buf line : Bytes) (s : IStream)
      → find_char b'=' (lib.trim_right line) ≡ none
      → fails (getline (lib.trim_right line) s).1 ≡ false
      → report_loop lib (suc f) buf line s
        ≡ report_loop lib f
            (buf ++ (lib.trim_right line ++ b'\n' ∷ []))
            (getline (lib.trim_right line) s).0
            (getline (lib.trim_right line) s).1
  unfolding report_loop
  report_loop_on f buf line s e on = ground arith

  -- The stream of a report that the loop returns at once.
  returned :
      (n : ℕ) (m : Outcome Report) (s : IStream)
      → (r : Report) × (m ≡ returns r) × (r.stream ≡ s)
      → Rest n s
      → Returns (Leaves n) m
  returned n m s (r, e, same) h = rw e (subst (λ (t : IStream). Rest n t) (sym same) h)

  getline-Rest_zero : (old : Bytes) (s : IStream) → Rest 0 s → fails (getline old s).1 ≡ true
  getline-Rest_zero old s (live w b a e l) = absurd (omega arith)
  getline-Rest_zero old s (over e) = getline_over old s e

  raise : (n : ℕ) (m : Outcome Report) → Returns (Leaves n) m → Returns (Leaves (suc n)) m
  raise n m = Returns-map (Leaves n) (Leaves (suc n)) m (λ r. Rest-mono n (suc n) (omega arith))

  not_both : (b : Bool) → b ≡ true → b ≡ false → ⊥
  not_both b h e = ground arith

  -- A round that goes on, by the same for the rest.
  go_on :
      (n : ℕ) {f : ℕ} (m : Outcome Report) (s t : IStream)
      → ((k : ℕ) → Rest k t → k < f → Returns (Leaves k) m)
      → ((k : ℕ) → Rest (suc k) s → Rest k t)
      → (Rest 0 s → ⊥)
      → Rest n s
      → n < suc f
      → Returns (Leaves n) m
  go_on zero m s t rest smaller not_zero r l = absurd (not_zero r)
  go_on (suc n) m s t rest smaller not_zero r l = raise n m (rest n (smaller n r) (omega arith))

  -- The line that is in `line` counts with what is left.
  pub report_loop-Rest :
      (f n : ℕ) (buf line : Bytes) (s : IStream)
      → Rest n s
      → n < f
      → Returns (Leaves n) (report_loop lib f buf line s)
  report_loop-Rest zero n buf line s r l = absurd (omega arith)
  report_loop-Rest (suc f) n buf line s r l =
      elim (Option-cases (find_char b'=' (lib.trim_right line))) [
        | inr (i, e) ↦ returned n _ s (report_loop_mark f i buf line s e) r
        | inl e ↦ elim (Bool-cases (fails (getline (lib.trim_right line) s).1)) [
          | inl failed ↦
              returned n _ (getline (lib.trim_right line) s).1
                (report_loop_end f buf line s e failed)
                (getline-Rest n (lib.trim_right line) s (Rest-mono n (suc n) (omega arith) r))
          | inr on ↦ rw (report_loop_on f buf line s e on) (
              go_on n _ _ _ (λ k h q. report_loop-Rest f k _ _ _ h q) (λ k h. getline-Rest k _ s h)
                (λ h. not_both _ (getline-Rest_zero _ s h) on) r l)
        ]
      ]

  -- Where fewer than `n + 1` characters are left, or the end has been met, readReport returns if it
  -- has more than `n + 1` rounds. Behind it fewer than `n` are left, or the end has been met.
  pub read_report-Rest :
      (junk f n : ℕ) (s : IStream)
      → Rest (suc n) s
      → suc n < f
      → Returns (Leaves n) (read_report lib junk f s)
  unfolding read_report
  read_report-Rest junk f n s r l =
      Returns-bind (λ (p : Bytes × IStream). Rest n p.1) (Leaves n) (skip_empty_lines junk f s)
        (after_empty_lines lib f) (skip_empty_lines-Rest junk f n s r l) behind
    where
      behind : (p : Bytes × IStream) → Rest n p.1 → Returns (Leaves n) (after_empty_lines lib f p)
      behind (line, t) h = elim (Bool-cases (is_empty line)) [
        | inl nothing ↦ rw nothing h
        | inr something ↦ rw something (report_loop-Rest f n [] line t h (omega arith))
      ]

  pub read_report_over :
      (junk f : ℕ) (s : IStream)
      → s.eofbit ≡ true
      → read_report lib junk (suc f) s ≡ returns (record { filled = false; text = []; stream = s })
  unfolding read_report after_empty_lines skip_empty_lines
  read_report_over junk f s e =
      rw (skip_over f (codes " \t\r\n") s e, read_line_over (suc f) [] junk s (omega arith) e) refl

pub length-drop : (n : ℕ) (a : Bytes) → 0 < n → n ≤ length a → length (drop n a) < length a
length-drop n a p h =
    let parts = ap (λ (x : Bytes). length x) (take-append-drop n a) in
    omega (arith, parts, length-append (take n a) (drop n a), length-take n a h)

-- A block takes a character at least, or meets the end.
read-Rest : (n : ℕ) (s : IStream) → Rest (suc n) s → Rest n (read 256 s).1
unfolding read
read-Rest n s (live w b a e l) = rw e (elim (Bool-cases (ltb (length a) 256)) [
  | inl short ↦ rw short (Rest.over refl)
  | inr long ↦ rw long (
      Rest.live w (onto b (take 256 a)) (drop 256 a) refl (
        let enough : 256 ≤ length a = ground arith in
        omega (arith, length-drop 256 a (omega arith) enough)))
])
read-Rest n s (over e) = simp e (Rest.over refl)

pub read_to_eof_over :
    (f : ℕ) (sent : Bytes) (s : IStream)
    → s.eofbit ≡ true
    → read_to_eof (suc f) sent s ≡ returns (sent, s)
unfolding read_to_eof
read_to_eof_over f sent s e = ground arith

read_to_eof_bad :
    (f : ℕ) (sent : Bytes) (s : IStream)
    → s.eofbit ≡ false
    → fails (read 256 s).1 && not (read 256 s).1.eofbit ≡ true
    → read_to_eof (suc f) sent s ≡ returns (sent, (read 256 s).1)
unfolding read_to_eof
read_to_eof_bad f sent s e bad = ground arith

pub read_to_eof_on :
    (f : ℕ) (sent : Bytes) (s : IStream)
    → s.eofbit ≡ false
    → fails (read 256 s).1 && not (read 256 s).1.eofbit ≡ false
    → read_to_eof (suc f) sent s ≡ read_to_eof f (sent ++ (read 256 s).0) (read 256 s).1
unfolding read_to_eof
read_to_eof_on f sent s e on = ground arith

-- readToEof returns.
pub read_to_eof-Rest :
    (f n : ℕ) (sent : Bytes) (s : IStream)
    → Rest n s
    → n < f
    → Returns (λ (p : Bytes × IStream). Unit {0}) (read_to_eof f sent s)
read_to_eof-Rest zero n sent s r l = absurd (omega arith)
read_to_eof-Rest (suc f) zero sent s (live w b a e h) l = absurd (omega arith)
read_to_eof-Rest (suc f) zero sent s (over e) l = rw (read_to_eof_over f sent s e) tt
read_to_eof-Rest (suc f) (suc n) sent s r l = elim (Bool-cases s.eofbit) [
  | inl end ↦ rw (read_to_eof_over f sent s end) tt
  | inr on ↦ elim (Bool-cases (fails (read 256 s).1 && not (read 256 s).1.eofbit)) [
    | inl bad ↦ rw (read_to_eof_bad f sent s on bad) tt
    | inr good ↦
        rw (read_to_eof_on f sent s on good)
          (read_to_eof-Rest f n _ _ (read-Rest n s r) (omega arith))
  ]
]
