-- ===== src/Lines/Reports/Eof.antt =====
-- What readToEof makes of the rest of a text.
use kvnorcom.Prelude.{
  ℕ, zero, suc, ◌+◌, ◌<◌, ◌≤◌, ◌≡◌, refl, sym, ap, ◌∙◌, Bool, true, Bool-cases, inl, inr, ◌++◌,
  append-nil, append_assoc, ltb, ltb→lt, length, take, drop, take-append-drop, take_all, arith,
}
use kvnorcom.Prelude.Bytes.{Bytes, onto}
use kvnorcom.Outcome.{Returns, Returns-map}
use kvnorcom.Stream.{IStream, reading, read}
use kvnorcom.Lines.{read_to_eof}
use kvnorcom.Lines.Total.{read_to_eof_over, read_to_eof_on, length-drop}
use kvnorcom.Lines.Reports.{At, live, over}

-- readToEof takes all that is left.
pub read_to_eof-At :
    (f : ℕ) (sent rest : Bytes) (w : Bool) (s : IStream)
    → At w rest s
    → length rest + 1 < f
    → Returns (λ p. p.0 ≡ sent ++ rest) (read_to_eof f sent s)
unfolding read
read_to_eof-At zero sent rest w s at n = absurd (omega arith)
read_to_eof-At (suc zero) sent rest w s at n = absurd (omega arith)
read_to_eof-At (suc (suc f)) sent rest w s (over _ e) n =
    rw (read_to_eof_over (suc f) sent s e) (sym (append-nil sent))
read_to_eof-At (suc (suc f)) sent rest w s (live b _) n =
    elim (Bool-cases (ltb (length rest) 256)) [
      | inl short ↦
          let met : (read 256 s).1.eofbit ≡ true = rw short refl in
          rw
            (
              read_to_eof_on (suc f) sent s refl (rw short refl),
              read_to_eof_over f (sent ++ take 256 rest) (read 256 s).1 met,
              take_all 256 rest (ltb→lt (length rest) 256 short),
            )
            refl
      | inr full ↦
          let enough : 256 ≤ length rest = ground (arith, full) in
          let fewer = length-drop 256 rest (omega arith) enough in
          rw (read_to_eof_on (suc f) sent s refl (rw full refl), full)
            (Returns-map (λ p. p.0 ≡ (sent ++ take 256 rest) ++ drop 256 rest)
              (λ p. p.0 ≡ sent ++ rest)
              (read_to_eof (suc f) (sent ++ take 256 rest)
                (reading w (onto b (take 256 rest)) (drop 256 rest)))
              (λ p e.
                e
                ∙ append_assoc sent (take 256 rest) (drop 256 rest)
                ∙ ap (λ x. sent ++ x) (take-append-drop 256 rest))
              (read_to_eof-At (suc f) (sent ++ take 256 rest) (drop 256 rest) w _
                (live (onto b (take 256 rest)) (drop 256 rest)) (omega (arith, fewer))))
    ]
