-- ===== src/Raport/Sections.antt =====
-- What the handlers of SYNOP and METAR make of the reports of a bulletin.
use kvnorcom.Prelude.{
  ℕ, zero, suc, ◌+◌, ◌<◌, ◌≤◌, ◌≡◌, refl, ap, Bool, true, false, List, [], ◌∷◌, length, all, arith,
}
use kvnorcom.Prelude.Bytes.{Bytes, codes, lacks}
use kvnorcom.Outcome.{Returns, Returns-bind}
use kvnorcom.Stream.{IStream}
use kvnorcom.Framing.{valid_char}
use kvnorcom.Lines.{read_report}
use kvnorcom.Lines.Reports.{At, StartsOther, line_end}
use kvnorcom.Lines.Reports.Whole.{
  print_lines, text_lines, IsReport, IsRead, IsTrimRight, read_report-At, read_report-end,
  length-print_lines,
}
use kvnorcom.Lines.Reports.Last.{open_lines, read_report-last}
use kvnorcom.Raport.Messages.{MsgMap, remove_empty_keys}
use kvnorcom.Raport.Handlers.{Library, Section, report_rounds, read_section}

no_line_end :
    (c : ℕ) → valid_char c (codes " \t\r\n") ≡ false → valid_char c (codes "\t\r\n") ≡ false
unfolding valid_char
no_line_end c h = ground arith

-- The body of a handler's loop, on one report after the other: the first line of each and those
-- behind it.
abbrev pub handled : (Bytes → Section → Section) → List (Bytes × List Bytes) → Section → Section
handled body [] v = v
handled body ((l, ls) ∷ rs) v = handled body rs (body (text_lines (l ∷ ls)) v)

module _ (lib : Library) (trims : IsTrimRight lib.trim_right) (crs : Bytes)
    (only_ends : all line_end crs ≡ true) (one_line : lacks b'\n' crs ≡ true) where
  -- Reports, each but the last one with a line end behind it.
  abbrev pub print_reports : List (Bytes × List Bytes) → Bytes
  print_reports [] = []
  print_reports ((l, ls) ∷ []) = open_lines lib.texts trims crs only_ends one_line (l ∷ ls)
  print_reports ((l, ls) ∷ r ∷ rs) = print_lines crs (l ∷ ls) (print_reports (r ∷ rs))

  abbrev pub AllReports : List (Bytes × List Bytes) → Type 0
  AllReports [] = Unit
  AllReports ((l, ls) ∷ rs) = IsReport lib.texts trims crs only_ends one_line l ls × AllReports rs

  pub starts-AllReports :
      (r : Bytes × List Bytes) (rs : List (Bytes × List Bytes))
      → AllReports (r ∷ rs)
      → StartsOther (codes "\t\r\n") (print_reports (r ∷ rs))
  starts-AllReports ([], ls) rs h = absurd h.0.0
  starts-AllReports (x ∷ l, []) [] h = no_line_end x h.0.0.0
  starts-AllReports (x ∷ l, m ∷ ms) [] h = no_line_end x h.0.0.0
  starts-AllReports (x ∷ l, ls) (r ∷ rs) h = no_line_end x h.0.0.0

  length-behind : (ls : List Bytes) (rest : Bytes) → length rest ≤ length (print_lines crs ls rest)
  length-behind [] rest = omega arith
  length-behind (l ∷ ls) rest = omega (
    arith,
    length-behind ls rest,
    length-print_lines lib.texts trims crs only_ends one_line l ls rest,
  )

  -- Each report has a character at least.
  length-print_reports :
      (r : Bytes × List Bytes) (rs : List (Bytes × List Bytes))
      → AllReports (r ∷ rs)
      → length (print_reports rs) < length (print_reports (r ∷ rs))
  length-print_reports ([], ls) rs h = absurd h.0.0
  length-print_reports (x ∷ l, []) [] h = omega arith
  length-print_reports (x ∷ l, m ∷ ms) [] h = omega arith
  length-print_reports (x ∷ l, ls) (r ∷ rs) h = omega (
    arith,
    length-behind ls (print_reports (r ∷ rs)),
    length-print_lines lib.texts trims crs only_ends one_line (x ∷ l) ls (print_reports (r ∷ rs)),
  )

  module _ (junk : ℕ) (w : Bool) where
    -- readReport takes the first report, whether another one follows or not.
    read_report-first :
        (f : ℕ) (l : Bytes) (ls : List Bytes) (rs : List (Bytes × List Bytes)) (s : IStream)
        → AllReports ((l, ls) ∷ rs)
        → At w (print_reports ((l, ls) ∷ rs)) s
        → length (print_reports ((l, ls) ∷ rs)) + 1 < f
        → Returns
            (IsRead lib.texts trims crs only_ends one_line w
              (text_lines (l ∷ ls))
              (print_reports rs))
            (read_report lib.texts junk f s)
    read_report-first f l ls [] s h at n =
        read_report-last lib.texts trims crs only_ends one_line junk f l ls w s h.0 at n
    read_report-first f l ls (r ∷ rs) s h at n =
        read_report-At lib.texts trims crs only_ends one_line junk f l ls (print_reports (r ∷ rs)) w
          s h.0 (starts-AllReports r rs h.1) at (omega arith)

    report_rounds-handled :
        (body : Bytes → Section → Section) (f : ℕ) (line : Bytes) (v : Section)
        (rs : List (Bytes × List Bytes)) (s : IStream)
        → AllReports rs
        → At w (print_reports rs) s
        → length (print_reports rs) + 1 < f
        → Returns (λ u. u ≡ handled body rs (body line v)) (report_rounds lib body junk f line v s)
    unfolding report_rounds
    report_rounds-handled body zero line v rs s h at n = absurd (omega arith)
    report_rounds-handled body (suc f) line v [] s h at n =
        Returns-bind (λ r. r.filled ≡ false) (λ u. u ≡ body line v)
          (read_report lib.texts junk (suc f) s) _
          (read_report-end lib.texts trims crs only_ends one_line junk f w s at) (λ r e. rw e refl)
    report_rounds-handled body (suc f) line v ((l, ls) ∷ rs) s h at n =
        Returns-bind
          (IsRead lib.texts trims crs only_ends one_line w (text_lines (l ∷ ls)) (print_reports rs))
          (λ u. u ≡ handled body rs (body (text_lines (l ∷ ls)) (body line v)))
          (read_report lib.texts junk (suc f) s) _ (read_report-first (suc f) l ls rs s h at n)
          (λ r (filled, text, at').
            let shorter = length-print_reports (l, ls) rs h in
            rw (filled, text)
              (report_rounds-handled body f (text_lines (l ∷ ls)) (body line v) rs r.stream h.1 at'
                (omega (arith, shorter))))

    -- The variables of a handler before its loop.
    abbrev pub begin_section : MsgMap → Section
    begin_section m = record { skip = false; ident = []; messages = m }

    -- A handler takes the reports one by one, each as a whole and in their order, and removes the
    -- empty keys at the end.
    pub read_section-handled :
        (body : Bytes → Section → Section) (f : ℕ) (r : Bytes × List Bytes)
        (rs : List (Bytes × List Bytes)) (m : MsgMap) (s : IStream)
        → AllReports (r ∷ rs)
        → At w (print_reports (r ∷ rs)) s
        → length (print_reports (r ∷ rs)) + 1 < f
        → Returns
            (λ u. u ≡ remove_empty_keys lib.trim (handled body (r ∷ rs) (begin_section m)).messages)
            (read_section lib body junk f s m)
    unfolding read_section
    read_section-handled body f (l, ls) rs m s h at n =
        let end : MsgMap =
          remove_empty_keys lib.trim (handled body ((l, ls) ∷ rs) (begin_section m)).messages in
        Returns-bind
          (IsRead lib.texts trims crs only_ends one_line w (text_lines (l ∷ ls)) (print_reports rs))
          (λ u. u ≡ end) (read_report lib.texts junk f s) _ (read_report-first f l ls rs s h at n)
          (λ rep (filled, text, at').
            let shorter = length-print_reports (l, ls) rs h in
            rw (filled, text)
              (Returns-bind
                (λ u. u ≡ handled body rs (body (text_lines (l ∷ ls)) (begin_section m)))
                (λ u. u ≡ end)
                (report_rounds lib body junk f (text_lines (l ∷ ls)) (begin_section m) rep.stream) _
                (report_rounds-handled body f (text_lines (l ∷ ls)) (begin_section m) rs rep.stream
                  h.1 at' (omega (arith, shorter)))
                (λ u e. ap (λ (x : Section). remove_empty_keys lib.trim x.messages) e)))
