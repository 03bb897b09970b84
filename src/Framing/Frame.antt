-- ===== src/Framing/Frame.antt =====
-- getMessage on a message in its frame, and on one whose end mark is missing.
use kvnorcom.Prelude.{
  ℕ, suc, ◌+◌, ◌≤◌, ◌<◌, ◌≡◌, refl, ◌∙◌, Bool, true, false, [], ◌∷◌, ◌++◌, ◌==◌, ==_iff, inl, inr,
  Bool-cases, length, all, rounds, fuel-of, rounds-append, append-nil, length-append, arith,
}
use kvnorcom.Prelude.Bytes.{Bytes, codes, onto, last_or, lacks}
use kvnorcom.Outcome.{returns}
use kvnorcom.Stream.{reading, ended, get}
use kvnorcom.Framing.{Message, scan_from, read_message, get_message}
use kvnorcom.Framing.Mark.{end_mark, send_message-body, read_to_mark, read_end_mark}
use kvnorcom.Framing.Zczc.{in_header, find_zczc-found}
use kvnorcom.Framing.Steps.{is_eol, is_mark, no_nnnn}
use kvnorcom.Framing.Runs.{scan, read_body, read_end_next, read_end_eof}

module _ (w : Bool) where
  pub read_message-frame :
      (f junk : ℕ) (b body es crs : Bytes) (c : ℕ) (rest : Bytes)
      → no_nnnn 0 body ≡ true
      → is_mark (last_or 0 body) ≡ false
      → all is_eol es ≡ true
      → 2 < length es
      → all (λ c. c == b'\r') crs ≡ true
      → length body + length (end_mark es crs) < f
      → read_message f (scan_from junk (reading w b (body ++ (end_mark es crs ++ c ∷ rest))))
        ≡ returns (record {
          complete = true;
          msg = body;
          stream = reading w (onto (onto b body) (end_mark es crs)) (c ∷ rest);
        })
  read_message-frame f junk b body es crs c rest hb he hes le hc h =
      let (g, e) =
        fuel-of (body ++ end_mark es crs) f (omega (arith, length-append body (end_mark es crs))) in
      cc (e, rounds-append body (end_mark es crs) (suc g))
      ∙ read_to_mark w (rounds (end_mark es crs) (suc g)) junk b (end_mark es crs ++ c ∷ rest) body
          hb he
      ∙ read_end_mark w (suc g) body (last_or junk body) (onto b body) es crs (c ∷ rest) hes le hc
      ∙ read_end_next w g 4 (length crs + 1) (length (end_mark es crs)) (body ++ end_mark es crs)
          (onto (onto b body) (end_mark es crs)) c rest (omega arith)
      ∙ send_message-body body (end_mark es crs) _ _ refl refl

  -- The same at the end of the input.
  pub read_message-last :
      (f junk : ℕ) (b body es crs : Bytes)
      → no_nnnn 0 body ≡ true
      → is_mark (last_or 0 body) ≡ false
      → all is_eol es ≡ true
      → 2 < length es
      → all (λ c. c == b'\r') crs ≡ true
      → length body + length (end_mark es crs) < f
      → read_message f (scan_from junk (reading w b (body ++ end_mark es crs)))
        ≡ returns (record {
          complete = true;
          msg = body;
          stream = ended w (onto (onto b body) (end_mark es crs));
        })
  read_message-last f junk b body es crs hb he hes le hc h =
      let (g, e) =
        fuel-of (body ++ end_mark es crs) f (omega (arith, length-append body (end_mark es crs))) in
      let mark = end_mark es crs in
      cc (e, rounds-append body mark (suc g))
      ∙ read_to_mark w (rounds mark (suc g)) junk b mark body hb he
      ∙ cc (append-nil mark)
      ∙ read_end_mark w (suc g) body (last_or junk body) (onto b body) es crs [] hes le hc
      ∙ read_end_eof w g 4 (length crs + 1) (length mark) (body ++ mark) b'\n'
          (onto (onto b body) mark) (omega arith)
      ∙ send_message-body body mark _ _ refl refl

  -- A stretch without the end mark, up to the end of the input: the result is false and nothing is
  -- written, though the comment behind the loop says that the end mark is taken for found.
  pub read_message_unmarked :
      (f junk : ℕ) (b a : Bytes)
      → no_nnnn 0 a ≡ true
      → length a < f
      → read_message f (scan_from junk (reading w b a))
        ≡ returns (record { complete = false; msg = []; stream = ended w (onto b a) })
  read_message_unmarked f junk b a h l =
      let (g, e) = fuel-of a f l in
      let (k, rn, count, lt, run) = read_body w (suc g) 0 0 0 [] junk b a [] (omega arith) h in
      cc (e, append-nil a) ∙ run ∙ read_nothing g k rn count a (last_or junk a) (onto b a)
    where
      read_nothing :
          (g k rn count : ℕ) (sent : Bytes) (ch : ℕ) (b : Bytes)
          → read_message (suc g) (scan w k rn count sent ch b [])
            ≡ returns (record { complete = false; msg = []; stream = ended w b })
      read_nothing g k rn count sent ch b = unfold read_message get in refl

-- A message in its frame: the header line, the body `c ∷ body` and the end mark.
abbrev pub framed : Bytes → Bytes → ℕ → Bytes → Bytes → Bytes → Bytes → Bytes
framed pre hdr c body es crs rest =
    pre ++ (codes "ZCZC" ++ (hdr ++ c ∷ (body ++ (end_mark es crs ++ rest))))

module _ (trimstr : Bytes → Bytes) (junk : ℕ) (w : Bool) (b pre hdr : Bytes) where
  -- The only 'Z' in front of the input's first message are those of its ZCZC, a header of blanks,
  -- digits and line ends follows that ends in '\n', then a body that begins with another character,
  -- has no four N in a row and ends neither in N nor in a line end, then the end mark: three line
  -- ends or more, NNNN, carriage returns and '\n'. Then getMessage writes exactly the body, hands
  -- over the trimmed header line, and leaves the stream behind the end mark.
  pub get_message-frame :
      (f c : ℕ) (body es crs : Bytes) (d : ℕ) (rest : Bytes)
      → lacks b'Z' pre ≡ true
      → all in_header hdr ≡ true
      → last_or b'C' hdr ≡ b'\n'
      → in_header c ≡ false
      → no_nnnn 0 (c ∷ body) ≡ true
      → is_mark (last_or c body) ≡ false
      → all is_eol es ≡ true
      → 2 < length es
      → all (λ x. x == b'\r') crs ≡ true
      → length pre + length hdr + length body + length (end_mark es crs) + 5 ≤ f
      → get_message trimstr junk f (reading w b (framed pre hdr c body es crs (d ∷ rest)))
        ≡ returns (
          trimstr (codes "ZCZC" ++ hdr),
          record {
            complete = true;
            msg = c ∷ body;
            stream =
                reading w
                  (onto
                    (onto (onto (onto (onto b pre) (codes "ZCZC")) hdr) (c ∷ body))
                    (end_mark es crs))
                  (d ∷ rest);
          },
        )
  unfolding get_message
  get_message-frame f c body es crs d rest hp hh nl hc hb hl hes le hcr h = rw (
    find_zczc-found trimstr junk w b pre hdr f c (body ++ (end_mark es crs ++ d ∷ rest)) hp hh hc
        (omega arith),
    (==_iff (last_or b'C' hdr) b'\n').1 nl,
    read_message-frame w f junk (onto (onto (onto b pre) (codes "ZCZC")) hdr) (c ∷ body) es crs d
        rest hb hl hes le hcr (omega arith),
  )

  -- Behind such a header a body with no four N in a row reaches the end of the input: getMessage
  -- returns false and writes nothing, so the message is lost. The comment behind its loop says that
  -- the end mark is taken for found and true is returned.
  pub get_message-unmarked :
      (f c : ℕ) (body : Bytes)
      → lacks b'Z' pre ≡ true
      → all in_header hdr ≡ true
      → in_header c ≡ false
      → no_nnnn 0 (c ∷ body) ≡ true
      → length pre + length hdr + length body + 5 ≤ f
      → (m : Message) × (get_message trimstr junk f
            (reading w b (pre ++ (codes "ZCZC" ++ (hdr ++ c ∷ body))))
          ≡ returns (trimstr (codes "ZCZC" ++ hdr), m))
        × (m.complete ≡ false)
        × (m.msg ≡ [])
  unfolding get_message
  get_message-unmarked f c body hp hh hc hb h = elim (Bool-cases (last_or b'C' hdr == b'\n')) [
    | inl nl ↦ (
      record { complete = false; msg = []; stream = ended w (onto behind (c ∷ body)) },
      rw (
        find_zczc-found trimstr junk w b pre hdr f c body hp hh hc (omega arith),
        nl,
        read_message_unmarked w f junk behind (c ∷ body) hb (omega arith),
      ),
      refl,
      refl,
    )
    | inr other ↦ (
      record { complete = false; msg = []; stream = reading w behind (c ∷ body) },
      rw (find_zczc-found trimstr junk w b pre hdr f c body hp hh hc (omega arith), other),
      refl,
      refl,
    )
  ]
    where
      behind : Bytes
      behind = onto (onto (onto b pre) (codes "ZCZC")) hdr
