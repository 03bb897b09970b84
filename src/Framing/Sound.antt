-- ===== src/Framing/Sound.antt =====
-- What getMessage writes whenever it succeeds, on any input; and that its loops end.
use kvnorcom.Prelude.{
  ℕ, zero, suc, ◌+◌, ◌≤◌, ◌<◌, ◌≡◌, ◌≢◌, refl, sym, ap, ◌∙◌, Bool, true, false, ◌&&◌, [], ◌∷◌, ◌++◌,
  ◌==◌, ltb, ltb→lt, some, none, inl, inr, Bool-cases, length, length-append, all, get_elem?,
  append_assoc, arith,
}
use kvnorcom.Prelude.Bytes.{Bytes, codes, lacks}
use kvnorcom.Outcome.{Outcome, returns, fault, running}
use kvnorcom.Stream.{IStream, reading, ended, get, putback_back}
use kvnorcom.Framing.{
  Scan, Message, nnnn, match_nnnn, scan_from, send_message, read_message, read_end, valid_char,
}
use kvnorcom.Framing.Steps.{is_eol, is_mark, nnnn_at, is_eol-valid_char}
use kvnorcom.Framing.Runs.{scan}
use kvnorcom.Framing.Mark.{send_message-body}
use kvnorcom.Framing.Invariant.{
  eols, Inv, EndInv, Round, match_nnnn-Round, reset-Inv, next-Inv, eol-Inv, end-EndInv,
  behind-EndInv,
}

-- `total` is the message, three line ends or more among line ends and N, NNNN, more line ends,
-- and what is left in the stream.
pub record Framed (total : Bytes) (m : Message) : Type 0 where
  pub before : Bytes
  pub behind : Bytes
  pub splits : total ≡ m.msg ++ (before ++ (codes "NNNN" ++ (behind ++ m.stream.ahead)))
  pub before_mark : all is_mark before ≡ true
  pub before_eols : 2 < eols before
  pub behind_eols : all is_eol behind ≡ true
  pub behind_ne_nil : behind ≢ []

-- A run over `total`: it ends, it faults only on a NUL byte, and what it writes is framed.
abbrev pub Ends : Bytes → Outcome Message → Type 0
Ends total (returns m) = m.complete ≡ true → Framed total m
Ends total fault = lacks 0 total ≡ false
Ends total running = ⊥

send_message-Ends :
    (total : Bytes) (v : Scan) (s : IStream)
    → EndInv v
    → 0 < v.rn_count
    → total ≡ v.sent ++ s.ahead
    → Ends total (send_message v s)
send_message-Ends total v s i h e =
    rw (send_message-body i.body (i.tail ++ (codes "NNNN" ++ i.behind)) v s i.sent_is count) λ _.
      record {
        before = i.tail;
        behind = i.behind;
        splits = e ∙ ap (λ (t : Bytes). t ++ s.ahead) i.sent_is ∙ simp append_assoc;
        before_mark = i.tail_mark;
        before_eols = i.tail_eols;
        behind_eols = i.behind_eols;
        behind_ne_nil = λ z. absurd (omega (arith, i.rn_is, ap length z));
      }
  where
    count : v.count ≡ length (i.tail ++ (codes "NNNN" ++ i.behind))
    count = omega (arith, i.count_is, length-append i.tail (codes "NNNN" ++ i.behind))

fourth_mark : (k : ℕ) → k ≡ 4 → get_elem? nnnn k ≡ some 0
fourth_mark k e = rw e

beyond_mark : (k : ℕ) → k ≡ 5 → get_elem? nnnn k ≡ none
beyond_mark k e = rw e

lacks-append : (c : ℕ) (xs ys : Bytes) → lacks c ys ≡ false → lacks c (xs ++ ys) ≡ false
lacks-append c [] ys h = h
lacks-append c (x ∷ xs) ys h = ground (arith, lacks-append c xs ys)

nul_in :
    (total sent : Bytes) (c : ℕ) (cs : Bytes)
    → total ≡ (sent ++ c ∷ []) ++ cs
    → c ≡ 0
    → lacks 0 total ≡ false
nul_in total sent c cs e z = rw (e, append_assoc) (lacks-append 0 sent (c ∷ cs) (ground arith))

not_eol-valid_char : (c : ℕ) → is_eol c ≡ false → valid_char c (codes "\r\n") ≡ false
unfolding valid_char
not_eol-valid_char c h = ground arith

module _ (w : Bool) (total : Bytes) where
  read_end-Ends :
      (f k rn count : ℕ) (sent : Bytes) (ch : ℕ) (b a : Bytes)
      → EndInv (scan w k rn count sent ch b a)
      → total ≡ sent ++ a
      → length a < f
      → Ends total (read_end f (scan w k rn count sent ch b a))
  unfolding read_end get
  read_end-Ends zero k rn count sent ch b a i e h = absurd (omega arith)
  read_end-Ends (suc f) k rn count sent ch b [] i e h = elim (Bool-cases (ltb 0 rn)) [
    | inl some_end ↦ rw some_end (
        send_message-Ends total (scan w k rn count sent ch b []) (ended w b) i
          (ltb→lt 0 rn some_end) e)
    | inr no_end ↦ rw no_end λ z. cc
  ]
  read_end-Ends (suc f) k rn count sent ch b (c ∷ cs) i e h =
      elim (Bool-cases (ch == b'\n' && ltb 0 rn)) [
        | inl over ↦
            rw (over, putback_back w c b cs)
              (send_message-Ends total (scan w k rn count sent ch b (c ∷ cs)) (reading w b (c ∷ cs))
                i (ground arith) e)
        | inr more ↦ elim (Bool-cases (is_eol c)) [
          | inl eol ↦
              rw (more, is_eol-valid_char c eol)
                (read_end-Ends f k (rn + 1) (count + 1) (sent ++ c ∷ []) c (c ∷ b) cs
                  (behind-EndInv (scan w k rn count sent ch b (c ∷ cs)) c (reading w (c ∷ b) cs) i
                    eol)
                  (e ∙ sym (append_assoc sent (c ∷ []) cs)) (omega arith))
          | inr other ↦ rw (more, not_eol-valid_char c other) λ z. cc
        ]
      ]

  -- One round, given what is known of the rounds to come.
  on_character :
      (f k rn count : ℕ) (sent : Bytes) (ch : ℕ) (b : Bytes) (c : ℕ) (cs : Bytes)
      → Inv (scan w k rn count sent ch b (c ∷ cs))
      → total ≡ (sent ++ c ∷ []) ++ cs
      → length cs < f
      → ((k' rn' count' : ℕ)
          → k' ≤ 4
          → Inv (scan w k' rn' count' (sent ++ c ∷ []) c (c ∷ b) cs)
          → Ends total (read_message f (scan w k' rn' count' (sent ++ c ∷ []) c (c ∷ b) cs)))
      → Round
          (scan w k rn count (sent ++ c ∷ []) c (c ∷ b) cs)
          (match_nnnn (scan w k rn count (sent ++ c ∷ []) c (c ∷ b) cs))
      → Ends total (read_message (suc f) (scan w k rn count sent ch b (c ∷ cs)))
  unfolding read_message get
  on_character f k rn count sent ch b c cs i e h again (Round.reset m) = rw m (
      again 0 0 0 (omega arith)
        (reset-Inv (scan w k rn count sent ch b (c ∷ cs)) c (reading w (c ∷ b) cs) i))
  on_character f k rn count sent ch b c cs i e h again (Round.eol l m) = rw m (
      again 0 (rn + 1) (count + 1) (omega arith)
        (eol-Inv (scan w k rn count sent ch b (c ∷ cs)) c (reading w (c ∷ b) cs) i l))
  on_character f k rn count sent ch b c cs i e h again (Round.next lt n m) =
      elim (Bool-cases (ltb k 3)) [
        | inl few ↦
            rw (m, nnnn_at (k + 1) (ground arith)) (again (k + 1) rn (count + 1) (omega arith) on)
        | inr third ↦ elim (Bool-cases (ltb 2 rn)) [
          | inl enough ↦
              rw (m, fourth_mark (k + 1) (ground arith), enough)
                (read_end-Ends f (k + 1) 0 (count + 1) (sent ++ c ∷ []) c (c ∷ b) cs
                  (end-EndInv (scan w k rn count sent ch b (c ∷ cs)) c (reading w (c ∷ b) cs) i 0 n
                    (ground arith) (ground arith) refl)
                  e h)
          | inr scarce ↦
              rw (m, fourth_mark (k + 1) (ground arith), scarce)
                (again (k + 1) rn (count + 1) (omega arith) on)
        ]
      ]
    where
      on : Inv (scan w (k + 1) rn (count + 1) (sent ++ c ∷ []) c (c ∷ b) cs)
      on = next-Inv (scan w k rn count sent ch b (c ∷ cs)) c (reading w (c ∷ b) cs) i n
  on_character f k rn count sent ch b c cs i e h again (Round.beyond four nul m) =
      rw (m, beyond_mark (k + 1) (omega arith)) (nul_in total sent c cs e nul)

  read_message-Ends_from :
      (f k rn count : ℕ) (sent : Bytes) (ch : ℕ) (b a : Bytes)
      → k ≤ 4
      → Inv (scan w k rn count sent ch b a)
      → total ≡ sent ++ a
      → length a < f
      → Ends total (read_message f (scan w k rn count sent ch b a))
  read_message-Ends_from zero k rn count sent ch b a hk i e h = absurd (omega arith)
  read_message-Ends_from (suc f) k rn count sent ch b [] hk i e h =
      unfold read_message get in λ z. cc
  read_message-Ends_from (suc f) k rn count sent ch b (c ∷ cs) hk i e h =
      on_character f k rn count sent ch b c cs i e' (omega arith)
        (λ k' rn' count' hk' i'.
          read_message-Ends_from f k' rn' count' (sent ++ c ∷ []) c (c ∷ b) cs hk' i' e'
            (omega arith))
        (match_nnnn-Round (scan w k rn count (sent ++ c ∷ []) c (c ∷ b) cs) hk)
    where
      e' : total ≡ (sent ++ c ∷ []) ++ cs
      e' = e ∙ sym (append_assoc sent (c ∷ []) cs)

-- Whatever the input behind a message's header, given a round for each of its characters and one
-- more, the search for the end mark ends; it reads out of bounds only where the input holds a NUL
-- byte; and where it succeeds, the input is what was written to `msg`, at least three line ends
-- among line ends and N, then NNNN and at least one line end, and what the stream still holds.
pub read_message-Ends :
    (f junk : ℕ) (w : Bool) (b a : Bytes)
    → length a < f
    → Ends a (read_message f (scan_from junk (reading w b a)))
read_message-Ends f junk w b a h =
    read_message-Ends_from w a f 0 0 0 [] junk b a (omega arith)
      (record {
        body = [];
        tail = [];
        sent_is = refl;
        tail_mark = refl;
        eols_is = refl;
        count_is = omega arith;
      })
      refl h
