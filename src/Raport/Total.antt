-- ===== src/Raport/Total.antt =====
-- The handlers return on any text of a bulletin, given enough rounds.
use kvnorcom.Prelude.{
  ℕ, zero, suc, ◌+◌, ◌<◌, refl, Bool, false, not, ◌&&◌, is_empty, inl, inr, Bool-cases, [], length,
  arith,
}
use kvnorcom.Prelude.Bytes.{Bytes}
use kvnorcom.Outcome.{Outcome, returns, fault, running, Returns, Returns-bind}
use kvnorcom.Stream.{IStream, reading}
use kvnorcom.Lines.{read_report}
use kvnorcom.Lines.Rest.{Rest, live, over}
use kvnorcom.Lines.Total.{Leaves, read_report-Rest, read_report_over}
use kvnorcom.Lines.{read_to_eof}
use kvnorcom.Lines.Total.{read_to_eof-Rest}
use kvnorcom.Raport.Kinds.{
  WmoRaport, synop, metar, temp, pilo, arep, drau, bath, tide, bufr_surface, contains,
}
use kvnorcom.Raport.{handler, do_dispatch}
use kvnorcom.Raport.Effects.{OnlyMessagesOf, do_dispatch-OnlyMessagesOf}
use kvnorcom.Raport.Messages.{MsgMap}
use kvnorcom.Raport.Handlers.{
  Library, WmoRaportState, Section, report_rounds, synop_report, metar_report, read_section,
  do_synop, do_metar, do_bufr_surface,
}

abbrev pub Any {ℓ} : {A : Type ℓ} → A → Type 0
Any a = Unit

module _ (lib : Library) (body : Bytes → Section → Section) (junk : ℕ) where
  report_rounds-Any :
      (f n : ℕ) (line : Bytes) (v : Section) (s : IStream)
      → Rest n s
      → n < f
      → Returns (Any {A = Section}) (report_rounds lib body junk f line v s)
  unfolding report_rounds
  report_rounds-Any zero n line v s r l = absurd (omega arith)
  report_rounds-Any (suc f) zero line v s (live w b a e h) l = absurd (omega arith)
  report_rounds-Any (suc f) zero line v s (over e) l = rw (read_report_over lib.texts junk f s e) tt
  report_rounds-Any (suc f) (suc n) line v s r l =
      Returns-bind (Leaves lib.texts n) (Any {A = Section}) (read_report lib.texts junk (suc f) s) _
        (read_report-Rest lib.texts junk (suc f) n s r l)
        (λ rep h. elim (Bool-cases rep.filled) [
          | inl more ↦
              rw more (report_rounds-Any f n rep.text (body line v) rep.stream h (omega arith))
          | inr last ↦ rw last tt
        ])

  read_section-Any :
      (f n : ℕ) (s : IStream) (m : MsgMap)
      → Rest (suc n) s
      → suc n < f
      → Returns (Any {A = MsgMap}) (read_section lib body junk f s m)
  unfolding read_section
  read_section-Any f n s m r l =
      Returns-bind (Leaves lib.texts n) (Any {A = MsgMap}) (read_report lib.texts junk f s) _
        (read_report-Rest lib.texts junk f n s r l)
        (λ rep h. elim (Bool-cases rep.filled) [
          | inl more ↦ rw more (
              Returns-bind (Any {A = Section}) (Any {A = MsgMap}) _ _
                (report_rounds-Any f n rep.text (record { skip = false; ident = []; messages = m })
                  rep.stream h (omega arith))
                (λ v u. tt))
          | inr nothing ↦ rw nothing tt
        ])

module _ (lib : Library) (junk f n : ℕ) (header line : Bytes) (s : IStream) (r : WmoRaportState)
    (left : Rest (suc n) s) (fuel : suc n < f) where
  pub handler-Any :
      (k : WmoRaport)
      → Returns (Any {A = Bool × WmoRaportState}) (handler lib junk k f header line s r)
  unfolding handler do_synop do_metar do_bufr_surface
  handler-Any synop =
      Returns-bind (Any {A = MsgMap}) Any _ _
        (read_section-Any lib (synop_report lib) junk f n s r.synop_map left fuel) (λ m u. tt)
  handler-Any metar =
      Returns-bind (Any {A = MsgMap}) Any _ _
        (read_section-Any lib (metar_report lib) junk f n s r.metar_map left fuel) (λ m u. tt)
  handler-Any bufr_surface =
      Returns-bind (λ (p : Bytes × IStream). Unit {0}) Any (read_to_eof f [] s) _
        (read_to_eof-Rest f (suc n) [] s left fuel) (λ p u. tt)
  handler-Any temp = tt
  handler-Any pilo = tt
  handler-Any arep = tt
  handler-Any drau = tt
  handler-Any bath = tt
  handler-Any tide = tt

-- A bulletin of type `k` is dispatched in a round for each of its characters and two more. The
-- dispatch changes the messages of that type at most: those of the other types and the set of
-- types to collect stay.
pub do_dispatch-Returns :
    (lib : Library) (junk f : ℕ) (header line : Bytes) (w : Bool) (b a : Bytes) (r : WmoRaportState)
    (k : WmoRaport)
    → length a + 1 < f
    → Returns
        (λ (p : Bool × WmoRaportState). OnlyMessagesOf k r (returns p))
        (do_dispatch lib junk k f header line (reading w b a) r)
do_dispatch-Returns lib junk f header line w b a r k h =
    both k r _ dispatched (do_dispatch-OnlyMessagesOf lib junk f header line (reading w b a) r k)
  where
    both :
        (k : WmoRaport) (r : WmoRaportState) (m : Outcome (Bool × WmoRaportState))
        → Returns Any m
        → OnlyMessagesOf k r m
        → Returns (λ (p : Bool × WmoRaportState). OnlyMessagesOf k r (returns p)) m
    both k r (returns p) u o = o
    both k r fault u o = absurd u
    both k r running u o = absurd u

    dispatched : Returns Any (do_dispatch lib junk k f header line (reading w b a) r)
    dispatched =
        unfold do_dispatch in
        elim (Bool-cases
          (not (is_empty r.raports_to_collect) && not (contains r.raports_to_collect k))) [
            | inl out ↦ rw out tt
            | inr wanted ↦ rw wanted (
                handler-Any lib junk f (length a) header line (reading w b a) r
                  (Rest.live w b a refl (omega arith)) (omega arith) k)
          ]
