-- ===== src/Lines/Reports/Last.antt =====
-- What readReport makes of the last report of a text, which has no line end behind it.
use mathlib.Core.Path.{subst}
use kvnorcom.Prelude.{
  ℕ, zero, suc, ◌+◌, ◌<◌, ◌≤◌, ◌≡◌, refl, sym, ap, ◌∙◌, Bool, true, false, List, [], ◌∷◌, ◌++◌,
  append-nil, append_assoc, length, length-append, all, all-head, all-tail, is_empty,
  is_empty-append, arith,
}
use kvnorcom.Prelude.Bytes.{Bytes, codes, lacks, last_or, last_or-append}
use kvnorcom.Outcome.{Returns, Returns-bind, Returns-map}
use kvnorcom.Stream.{IStream, reading, ended, get, getline, line_ahead, fails}
use kvnorcom.Framing.{valid_char}
use kvnorcom.Lines.{
  TextLibrary, is_alnum, skip, read_line, skip_empty_lines, report_loop, after_empty_lines,
  read_report,
}
use kvnorcom.Lines.Rest.{read_line_over}
use kvnorcom.Lines.Reports.{
  At, live, over, StartsOther, IsFirst, is_empty-IsFirst, text_char, line_end, lacks-head,
  lacks-tail, skip-At, skip_empty_lines-At, At-live,
}
use kvnorcom.Lines.Reports.Whole.{
  text_lines, IsMarked, IsMore, AllMore, IsReport, IsRead, IsTrimRight, EndsInText,
  report_loop-marked, trim-EndsInText, trim-IsMore, report_loop-next, text-append, getline-At,
  all-eol,
}

-- At the end of the input the last character counts twice.
read_line-last :
    (f : ℕ) (l sent : Bytes) (ch : ℕ) (w : Bool) (b : Bytes)
    → all text_char l ≡ true
    → text_char (last_or ch l) ≡ true
    → length l + 1 < f
    → Returns
        (λ p. (p.0 ≡ sent ++ (l ++ last_or ch l ∷ [])) × (p.1.eofbit ≡ true))
        (read_line f sent ch (reading w b l))
unfolding read_line get
read_line-last zero l sent ch w b t c n = absurd (omega arith)
read_line-last (suc f) [] sent ch w b t c n =
    rw (c, read_line_over f (sent ++ ch ∷ []) ch (ended w b) (omega arith) refl) (refl, refl)
read_line-last (suc f) (x ∷ l) sent ch w b t c n = rw (all-head text_char x l t) (
    Returns-map (λ p. (p.0 ≡ (sent ++ x ∷ []) ++ (l ++ last_or x l ∷ [])) × (p.1.eofbit ≡ true))
      (λ p. (p.0 ≡ sent ++ (x ∷ l ++ last_or x l ∷ [])) × (p.1.eofbit ≡ true))
      (read_line f (sent ++ x ∷ []) x (reading w (x ∷ b) l))
      (λ p (q, e). (q ∙ append_assoc sent (x ∷ []) (l ++ last_or x l ∷ []), e))
      (read_line-last f l (sent ++ x ∷ []) x w (x ∷ b) (all-tail text_char x l t) c (omega arith)))

mark-text_char : text_char b'=' ≡ true
unfolding is_alnum valid_char
mark-text_char = refl

-- A stream whose end a line has met.
abbrev EndsWith : Bytes → IStream → Type 0
EndsWith l t = (t.eofbit ≡ true) × (t.failbit ≡ is_empty l) × (t.badbit ≡ false)

line_ahead-end :
    (l sent : Bytes) (w : Bool) (b all_ahead : Bytes)
    → lacks b'\n' l ≡ true
    → (t : IStream) × (line_ahead l sent (reading w b all_ahead) ≡ (sent ++ l, t))
      × EndsWith (sent ++ l) t
unfolding line_ahead
line_ahead-end [] sent w b all_ahead h =
    rw (append-nil sent) (record (ended w b) { failbit = is_empty sent }, refl, (refl, refl, refl))
line_ahead-end (c ∷ l) sent w b all_ahead h =
    rw (lacks-head b'\n' c l h, ← append_assoc sent (c ∷ []) l)
      (line_ahead-end l (sent ++ c ∷ []) w (c ∷ b) all_ahead (lacks-tail b'\n' c l h))

module _ (lib : TextLibrary) (trims : IsTrimRight lib.trim_right) (crs : Bytes)
    (only_ends : all line_end crs ≡ true) (one_line : lacks b'\n' crs ≡ true) where
  -- The lines of a report, with nothing behind the last one.
  abbrev pub open_lines : List Bytes → Bytes
  open_lines [] = []
  open_lines (l ∷ []) = l
  open_lines (l ∷ m ∷ ls) = l ++ (crs ++ b'\n' ∷ open_lines (m ∷ ls))

  -- The next line, with its end or at the end of the input.
  getline-open :
      (old m : Bytes) (ms : List Bytes) (w : Bool) (s : IStream)
      → IsMore lib trims crs only_ends one_line m
      → At w (open_lines (m ∷ ms)) s
      → (raw : Bytes) × (t : IStream) × (getline old s ≡ (raw, t))
        × (fails t ≡ false)
        × (lib.trim_right raw ≡ m)
        × At w (open_lines ms) t
  unfolding getline
  getline-open old [] ms w s h at = absurd h
  getline-open old (x ∷ m) [] w s (starts, one, ends) at =
      let (b, e) = At-live at refl in
      let (t, got, (eof, failbit, bad)) = line_ahead-end (x ∷ m) [] w b (x ∷ m) one in
      (
        x ∷ m,
        t,
        ap (getline old) e ∙ got,
        rw (failbit, bad) refl,
        trim-EndsInText lib trims crs only_ends one_line (x ∷ m) ends,
        over t eof,
      )
  getline-open old (x ∷ m) (m' ∷ ms) w s h at =
      let (b, got) =
        getline-At lib trims crs only_ends one_line old (x ∷ m) [] (open_lines (m' ∷ ms)) w s h
          at in
      (
        x ∷ m ++ crs,
        reading w b (open_lines (m' ∷ ms)),
        got,
        refl,
        trim-IsMore lib trims crs only_ends one_line (x ∷ m) h,
        live b (open_lines (m' ∷ ms)),
      )

  -- readReport's loop on the last report.
  report_loop-open :
      (f : ℕ) (buf raw l : Bytes) (ls : List Bytes) (w : Bool) (s : IStream)
      → lib.trim_right raw ≡ l
      → IsMarked l ls
      → AllMore lib trims crs only_ends one_line ls
      → At w (open_lines ls) s
      → length ls < f
      → Returns
          (IsRead lib trims crs only_ends one_line w (buf ++ text_lines (l ∷ ls)) [])
          (report_loop lib f buf raw s)
  report_loop-open zero buf raw l ls w s trimmed marked more at n = absurd (omega arith)
  report_loop-open (suc f) buf raw l [] w s trimmed (t, e, h) more at n =
      rw (report_loop-marked lib trims crs only_ends one_line f buf raw t [] s (trimmed ∙ e) h)
        (refl, ap (λ x. buf ++ (x ++ b'\n' ∷ [])) (sym e), at)
  report_loop-open (suc f) buf raw l (m ∷ ms) w s trimmed (h, marked) (is_more, more) at n =
      let (raw', t, got, good, trimmed', at') = getline-open l m ms w s is_more at in
      let sent = buf ++ (l ++ b'\n' ∷ []) in
      rw (report_loop-next lib trims crs only_ends one_line f buf raw l raw' s t trimmed h got good)
        (Returns-map (IsRead lib trims crs only_ends one_line w (sent ++ text_lines (m ∷ ms)) [])
          (IsRead lib trims crs only_ends one_line w (buf ++ text_lines (l ∷ m ∷ ms)) [])
          (report_loop lib f sent raw' t)
          (λ r (filled, text, end).
            (filled, text ∙ text-append lib trims crs only_ends one_line buf l (m ∷ ms), end))
          (report_loop-open f sent raw' m ms w t trimmed' marked more at' (omega arith)))

  -- The first line, behind which nothing stands.
  skip_empty_lines-last :
      (junk f : ℕ) (l : Bytes) (w : Bool) (s : IStream)
      → IsFirst l
      → text_char (last_or junk l) ≡ true
      → At w l s
      → length l + 1 < f
      → Returns
          (λ p. (p.0 ≡ l ++ last_or junk l ∷ []) × (p.1.eofbit ≡ true))
          (skip_empty_lines junk f s)
  unfolding skip_empty_lines
  skip_empty_lines-last junk f [] w s first t at n = absurd first
  skip_empty_lines-last junk f (x ∷ l) w s (other, text) t (live b _) n =
      Returns-bind (At w (x ∷ l)) (λ p. (p.0 ≡ x ∷ l ++ last_or x l ∷ []) × (p.1.eofbit ≡ true))
        (skip f (codes " \t\r\n") s) (read_line f [] junk)
        (skip-At f (codes " \t\r\n") [] (x ∷ l) w b refl other (omega arith)) next
    where
      next :
          (u : IStream)
          → At w (x ∷ l) u
          → Returns
              (λ p. (p.0 ≡ x ∷ l ++ last_or x l ∷ []) × (p.1.eofbit ≡ true))
              (read_line f [] junk u)
      next u (live b' _) = read_line-last f (x ∷ l) [] junk w b' text t n

  last_or-mark : (c : ℕ) (t : Bytes) → last_or c (t ++ b'=' ∷ []) ≡ b'='
  last_or-mark c t = last_or-append c t (b'=' ∷ [])

  starts-open :
      (m : Bytes) (ms : List Bytes)
      → IsMore lib trims crs only_ends one_line m
      → StartsOther (codes "\t\r\n") (open_lines (m ∷ ms))
  starts-open [] ms h = absurd h
  starts-open (x ∷ m) [] h = h.0
  starts-open (x ∷ m) (m' ∷ ms) h = h.0

  length-open_lines :
      (l m : Bytes) (ms : List Bytes)
      → length (open_lines (l ∷ m ∷ ms))
        ≡ length l + length (crs ++ b'\n' ∷ []) + length (open_lines (m ∷ ms))
  length-open_lines l m ms = omega (
    arith,
    length-append l (crs ++ b'\n' ∷ open_lines (m ∷ ms)),
    length-append crs (b'\n' ∷ open_lines (m ∷ ms)),
    length-append crs (b'\n' ∷ []),
  )

  enough_for_open : (m : Bytes) (ms : List Bytes) → length ms ≤ length (open_lines (m ∷ ms))
  enough_for_open m [] = omega arith
  enough_for_open m (m' ∷ ms) =
      omega
        (arith, length-open_lines m m' ms, enough_for_open m' ms, length-append crs (b'\n' ∷ []))

  -- The '=' that counts twice changes nothing.
  report_loop-doubled :
      (f : ℕ) (t : Bytes) (w : Bool) (s : IStream)
      → lacks b'=' t ≡ true
      → s.eofbit ≡ true
      → 0 < f
      → Returns
          (IsRead lib trims crs only_ends one_line w ((t ++ b'=' ∷ []) ++ b'\n' ∷ []) [])
          (report_loop lib f [] ((t ++ b'=' ∷ []) ++ b'=' ∷ []) s)
  report_loop-doubled zero t w s h eof n = absurd (omega arith)
  report_loop-doubled (suc f) t w s h eof n =
      let raw = (t ++ b'=' ∷ []) ++ b'=' ∷ [] in
      let ends : EndsInText raw = rw (last_or-mark b' ' (t ++ b'=' ∷ [])) refl in
      let trimmed =
        trim-EndsInText lib trims crs only_ends one_line raw ends
        ∙ append_assoc t (b'=' ∷ []) (b'=' ∷ []) in
      rw (report_loop-marked lib trims crs only_ends one_line f [] raw t (b'=' ∷ []) s trimmed h)
        (refl, refl, over s eof)

  -- readReport takes the last report, with nothing behind it.
  pub read_report-last :
      (junk f : ℕ) (l : Bytes) (ls : List Bytes) (w : Bool) (s : IStream)
      → IsReport lib trims crs only_ends one_line l ls
      → At w (open_lines (l ∷ ls)) s
      → length (open_lines (l ∷ ls)) + 1 < f
      → Returns
          (IsRead lib trims crs only_ends one_line w (text_lines (l ∷ ls)) [])
          (read_report lib junk f s)
  unfolding read_report after_empty_lines
  read_report-last junk f l [] w s (first, ends, (t, e, h), more) at n =
      let mark : last_or junk l ≡ b'=' = ap (last_or junk) e ∙ last_or-mark junk t in
      Returns-bind (λ p. (p.0 ≡ l ++ last_or junk l ∷ []) × (p.1.eofbit ≡ true))
        (IsRead lib trims crs only_ends one_line w (l ++ b'\n' ∷ []) []) (skip_empty_lines junk f s)
        (after_empty_lines lib f)
        (skip_empty_lines-last junk f l w s first (ap text_char mark ∙ mark-text_char) at n)
        (λ (line, u) (q, eof).
          let doubled : line ≡ (t ++ b'=' ∷ []) ++ b'=' ∷ [] =
            q ∙ ap (λ c. l ++ c ∷ []) mark ∙ ap (λ x. x ++ b'=' ∷ []) e in
          rw (after_empty_lines, doubled, is_empty-append (t ++ b'=' ∷ []) [] b'=', e)
            (report_loop-doubled f t w u h eof (omega arith)))
  read_report-last junk f l (m ∷ ms) w s (first, ends, marked, more) at n =
      let eol = crs ++ b'\n' ∷ [] in
      let behind = open_lines (m ∷ ms) in
      Returns-bind (λ p. (p.0 ≡ l) × At w behind p.1)
        (IsRead lib trims crs only_ends one_line w (text_lines (l ∷ m ∷ ms)) [])
        (skip_empty_lines junk f s) (after_empty_lines lib f)
        (skip_empty_lines-At junk f l eol behind w s first (is_empty-append crs [] b'\n')
          (all-eol lib trims crs only_ends one_line crs only_ends) (starts-open m ms more.0)
          (subst (λ a. At w (l ++ a) s) (sym (append_assoc crs (b'\n' ∷ []) behind)) at)
          (omega (arith, length-open_lines l m ms)))
        (λ (line, t) (e, at').
          rw (after_empty_lines, e, is_empty-IsFirst l first)
            (report_loop-open f [] l l (m ∷ ms) w t
              (trim-EndsInText lib trims crs only_ends one_line l ends) marked more at'
              (omega (arith, length-open_lines l m ms, enough_for_open m ms))))
