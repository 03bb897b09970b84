-- ===== src/Framing/Zczc.antt =====
-- findZCZC: where it succeeds, and where it never returns.
use kvnorcom.Prelude.{
  ℕ, zero, suc, ◌+◌, ◌≤◌, ◌<◌, ◌≡◌, ◌≢◌, refl, ◌∙◌, Bool, true, false, [], ◌∷◌, ◌++◌, ◌==◌, ==_iff,
  ltb, ltb→lt, inl, inr, Bool-cases, length, all, all-head, all-tail, append_assoc, append-nil,
  arith,
}
use kvnorcom.Prelude.Bytes.{Bytes, codes, onto, last_or, lacks}
use kvnorcom.Outcome.{returns, running}
use kvnorcom.Stream.{reading, ended, get, putback}
use kvnorcom.Framing.{Search, valid_char, header_chars, find_start, read_header, find_zczc}

abbrev pub in_header : ℕ → Bool
in_header c = valid_char c header_chars

module _ (w : Bool) where
  abbrev search : ℕ → Bytes → ℕ → Bytes → Bytes → Search
  search izc line ch b a = record { izc = izc; line = line; ch = ch; stream = reading w b a }

  -- The four characters of the mark.
  find_start_mark :
      (f ch : ℕ) (b rest : Bytes)
      → find_start (suc (suc (suc (suc f)))) (search 0 [] ch b (codes "ZCZC" ++ rest))
        ≡ returns (true, search 4 (codes "ZCZC") b'C' (onto b (codes "ZCZC")) rest)
  unfolding find_start get
  find_start_mark f ch b rest = refl

  find_start_other :
      (f ch : ℕ) (b : Bytes) (c : ℕ) (cs : Bytes)
      → (c == b'Z') ≡ false
      → find_start (suc f) (search 0 [] ch b (c ∷ cs)) ≡ find_start f (search 0 [] c (c ∷ b) cs)
  unfolding find_start get
  find_start_other f ch b c cs h = ground arith

  find_start_lem :
      (f ch : ℕ) (b pre rest : Bytes)
      → lacks b'Z' pre ≡ true
      → length pre + 4 ≤ f
      → find_start f (search 0 [] ch b (pre ++ (codes "ZCZC" ++ rest)))
        ≡ returns (true, search 4 (codes "ZCZC") b'C' (onto (onto b pre) (codes "ZCZC")) rest)
  find_start_lem zero ch b pre rest h e = absurd (omega arith)
  find_start_lem (suc zero) ch b [] rest h e = absurd (omega arith)
  find_start_lem (suc (suc zero)) ch b [] rest h e = absurd (omega arith)
  find_start_lem (suc (suc (suc zero))) ch b [] rest h e = absurd (omega arith)
  find_start_lem (suc (suc (suc (suc f)))) ch b [] rest h e = find_start_mark f ch b rest
  find_start_lem (suc f) ch b (c ∷ cs) rest h e =
      find_start_other f ch b c (cs ++ (codes "ZCZC" ++ rest)) (ground arith)
      ∙ find_start_lem f c (c ∷ b) cs rest (ground arith) (omega arith)

  read_header_lem :
      (f prev : ℕ) (line b hdr : Bytes) (c : ℕ) (rest : Bytes)
      → all in_header hdr ≡ true
      → in_header c ≡ false
      → length hdr < f
      → read_header f (search 4 line prev b (hdr ++ c ∷ rest))
        ≡ returns (true, last_or prev hdr, search 4 (line ++ hdr) c (c ∷ onto b hdr) rest)
  unfolding read_header get
  read_header_lem zero prev line b hdr c rest h v e = absurd (omega arith)
  read_header_lem (suc f) prev line b [] c rest h v e = rw (v, append-nil)
  read_header_lem (suc f) prev line b (x ∷ xs) c rest h v e = rw (all-head in_header x xs h) (
      read_header_lem f x (line ++ x ∷ []) (x ∷ b) xs c rest (all-tail in_header x xs h) v
        (omega arith)
      ∙ rw append_assoc)

  find_start_short :
      (f ch : ℕ) (b pre rest : Bytes)
      → lacks b'Z' pre ≡ true
      → f < length pre + 4
      → find_start f (search 0 [] ch b (pre ++ (codes "ZCZC" ++ rest))) ≡ running
  unfolding find_start get
  find_start_short zero ch b pre rest h e = refl
  find_start_short (suc zero) ch b [] rest h e = refl
  find_start_short (suc (suc zero)) ch b [] rest h e = refl
  find_start_short (suc (suc (suc zero))) ch b [] rest h e = refl
  find_start_short (suc (suc (suc (suc f)))) ch b [] rest h e = absurd (omega arith)
  find_start_short (suc f) ch b (c ∷ cs) rest h e =
      find_start_other f ch b c (cs ++ (codes "ZCZC" ++ rest)) (ground arith)
      ∙ find_start_short f c (c ∷ b) cs rest (ground arith) (omega arith)

  -- At the end of the input `ch` keeps the last character of the header, over and over.
  read_header_stale :
      (f ch : ℕ) (line b : Bytes)
      → in_header ch ≡ true
      → read_header f (record { izc = 4; line = line; ch = ch; stream = ended w b }) ≡ running
  unfolding read_header get
  read_header_stale zero ch line b h = refl
  read_header_stale (suc f) ch line b h = rw h (read_header_stale f ch (line ++ ch ∷ []) b h)

  read_header_hangs :
      (f prev : ℕ) (line b hdr : Bytes)
      → in_header (last_or prev hdr) ≡ true
      → all in_header hdr ≡ true
      → read_header f (search 4 line prev b hdr) ≡ running
  unfolding read_header get
  read_header_hangs zero prev line b hdr l h = refl
  read_header_hangs (suc f) prev line b [] l h =
      rw l (read_header_stale f prev (line ++ prev ∷ []) b l)
  read_header_hangs (suc f) prev line b (x ∷ xs) l h =
      rw (all-head in_header x xs h)
        (read_header_hangs f x (line ++ x ∷ []) (x ∷ b) xs l (all-tail in_header x xs h))

last_in_header :
    (hdr : Bytes) → all in_header hdr ≡ true → hdr ≢ [] → in_header (last_or b'C' hdr) ≡ true
last_in_header [] h ne = absurd (ne refl)
last_in_header (x ∷ []) h ne = all-head in_header x [] h
last_in_header (x ∷ y ∷ xs) h ne =
    last_in_header (y ∷ xs) (all-tail in_header x (y ∷ xs) h) (λ e. cc)

module _ (trimstr : Bytes → Bytes) (junk : ℕ) (w : Bool) (b pre hdr : Bytes) where
  -- In an input whose first 'Z' begins a ZCZC, with blanks, digits and line ends behind it and
  -- then another character, findZCZC finds the mark, hands over the trimmed line and leaves the
  -- stream in front of that other character. It succeeds exactly where a '\n' ends the header.
  pub find_zczc-found :
      (f c : ℕ) (rest : Bytes)
      → lacks b'Z' pre ≡ true
      → all in_header hdr ≡ true
      → in_header c ≡ false
      → length pre + length hdr + 4 ≤ f
      → find_zczc trimstr junk f (reading w b (pre ++ (codes "ZCZC" ++ (hdr ++ c ∷ rest))))
        ≡ returns (record {
          found = last_or b'C' hdr == b'\n';
          line = trimstr (codes "ZCZC" ++ hdr);
          stream = reading w (onto (onto (onto b pre) (codes "ZCZC")) hdr) (c ∷ rest);
        })
  unfolding find_zczc putback
  find_zczc-found f c rest hp hh hc e = rw (
    find_start_lem w f junk b pre (hdr ++ c ∷ rest) hp (omega arith),
    read_header_lem w f b'C' (codes "ZCZC") (onto (onto b pre) (codes "ZCZC")) hdr c rest hh hc
        (omega arith),
    (==_iff c c).1 refl,
  )

  -- The input ends behind ZCZC and at least one blank, digit or line end: findZCZC never returns,
  -- however many rounds it is given.
  pub find_zczc-hangs :
      (f : ℕ)
      → lacks b'Z' pre ≡ true
      → all in_header hdr ≡ true
      → hdr ≢ []
      → find_zczc trimstr junk f (reading w b (pre ++ (codes "ZCZC" ++ hdr))) ≡ running
  unfolding find_zczc
  find_zczc-hangs f hp hh ne = elim (Bool-cases (ltb f (length pre + 4))) [
    | inl short ↦ rw (find_start_short w f junk b pre hdr hp (ltb→lt _ _ short))
    | inr enough ↦ rw (
      find_start_lem w f junk b pre hdr hp (ground arith),
      read_header_hangs w f b'C' (codes "ZCZC") (onto (onto b pre) (codes "ZCZC")) hdr
          (last_in_header hdr hh ne) hh,
    )
  ]
