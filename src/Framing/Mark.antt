-- ===== src/Framing/Mark.antt =====
-- The body of a message and its end mark, as getMessage's loops go through them.
use mathlib.Core.Path.{subst}
use native.Mathlib.Nat.{zero-add}
use kvnorcom.Prelude.{
  ℕ, suc, ◌+◌, ◌-◌, ◌<◌, ◌≡◌, refl, sym, ap, ◌∙◌, Bool, true, false, [], ◌∷◌, ◌++◌, ◌==◌, le→leb,
  length, all, take, rounds, rounds-append, concat-of, append_assoc, length-append, take-append,
  arith,
}
use kvnorcom.Prelude.Bytes.{Bytes, codes, onto, last_or, onto-append, last_or-append}
use kvnorcom.Outcome.{returns}
use kvnorcom.Stream.{IStream}
use kvnorcom.Framing.{Scan, send_message, read_message, read_end}
use kvnorcom.Framing.Steps.{is_eol, is_mark, no_nnnn}
use kvnorcom.Framing.Runs.{
  scan, step_other, read_body, read_eols, read_mark, step_end, read_end_crs,
}

-- The end mark behind a body: `es` in front of NNNN, carriage returns and a '\n' behind it.
abbrev pub end_mark : Bytes → Bytes → Bytes
end_mark es crs = es ++ (codes "NNNN" ++ (crs ++ b'\n' ∷ []))

no_nnnn-prefix : (k : ℕ) (xs ys : Bytes) → no_nnnn k (xs ++ ys) ≡ true → no_nnnn k xs ≡ true
no_nnnn-prefix k [] ys h = refl
no_nnnn-prefix k (x ∷ xs) ys h =
    ground (arith, no_nnnn-prefix (k + 1) xs ys, no_nnnn-prefix 0 xs ys)

pub send_message-body :
    (body t : Bytes) (v : Scan) (s : IStream)
    → v.sent ≡ body ++ t
    → v.count ≡ length t
    → send_message v s ≡ returns (record { complete = true; msg = body; stream = s })
unfolding send_message
send_message-body body t v s e c =
    rw (le→leb v.count (length v.sent) (omega (arith, total)))
      (ap (λ (m : Bytes). returns (record { complete = true; msg = m; stream = s })) kept)
  where
    total : length v.sent ≡ length body + length t
    total = ap length e ∙ length-append body t

    left : length v.sent - v.count ≡ length body
    left = omega (arith, total)

    kept : take (length v.sent - v.count) v.sent ≡ body
    kept = cc (left, e, take-append body t)

mark_count : (es crs : Bytes) → 0 + length es + 4 + length crs + 1 ≡ length (end_mark es crs)
mark_count es crs =
    omega (
      arith,
      length-append es (codes "NNNN" ++ (crs ++ b'\n' ∷ [])),
      length-append crs (b'\n' ∷ []),
    )

mark_regroup :
    (body es crs : Bytes)
    → (((body ++ es) ++ codes "NNNN") ++ crs) ++ b'\n' ∷ [] ≡ body ++ end_mark es crs
mark_regroup body es crs = simp append_assoc

mark_behind :
    (b es crs : Bytes)
    → b'\n' ∷ onto (onto (onto b es) (codes "NNNN")) crs ≡ onto b (end_mark es crs)
mark_behind b es crs = simp onto-append

last_cr :
    (c : ℕ) (crs : Bytes)
    → (c == b'\n') ≡ false
    → all (λ x. x == b'\r') crs ≡ true
    → (last_or c crs == b'\n') ≡ false
last_cr c [] h e = h
last_cr c (x ∷ xs) h e = last_cr x xs (ground arith) (ground arith)

module _ (w : Bool) where
  -- A body that ends in no character of the mark leaves the counters at 0.
  abbrev pub Clean : ℕ → ℕ → Bytes → Bytes → Bytes → Type 0
  Clean f ch b a body =
      no_nnnn 0 body ≡ true
      → is_mark (last_or 0 body) ≡ false
      → read_message (rounds body f) (scan w 0 0 0 [] ch b (body ++ a))
        ≡ read_message f (scan w 0 0 0 body (last_or ch body) (onto b body) a)

  read_concat : (f ch : ℕ) (b a pre : Bytes) (x : ℕ) → Clean f ch b a (pre ++ x ∷ [])
  read_concat f ch b a pre x h e =
      let (k, rn, count, lt, run) =
        read_body w (suc f) 0 0 0 [] ch b pre (x ∷ a) (omega arith)
          (no_nnnn-prefix 0 pre (x ∷ []) h) in
      cc (rounds-append pre (x ∷ []) f, append_assoc pre (x ∷ []) a)
      ∙ run
      ∙ step_other w f k rn count pre (last_or ch pre) (onto b pre) x a lt (rw last_or-append at e)
      ∙ cc (last_or-append ch pre (x ∷ []), onto-append b pre (x ∷ []))

  pub read_to_mark : (f ch : ℕ) (b a body : Bytes) → Clean f ch b a body
  read_to_mark f ch b a [] = λ h e. refl
  read_to_mark f ch b a (c ∷ cs) =
      let (pre, x, split) = concat-of c cs in
      subst (Clean f ch b a) (sym split) (read_concat f ch b a pre x)

  -- `es`, NNNN and the line end behind a body.
  pub read_end_mark :
      (f : ℕ) (body : Bytes) (ch : ℕ) (b es crs a : Bytes)
      → all is_eol es ≡ true
      → 2 < length es
      → all (λ c. c == b'\r') crs ≡ true
      → read_message (rounds (end_mark es crs) f) (scan w 0 0 0 body ch b (end_mark es crs ++ a))
        ≡ read_end f (
            scan w 4
              (length crs + 1)
              (length (end_mark es crs))
              (body ++ end_mark es crs)
              b'\n'
              (onto b (end_mark es crs))
              a)
  read_end_mark f body ch b es crs a he le hc =
      cc (
        rounds-append es (codes "NNNN" ++ (crs ++ b'\n' ∷ [])) f,
        rounds-append crs (b'\n' ∷ []) f,
        append_assoc es (codes "NNNN" ++ (crs ++ b'\n' ∷ [])) a,
        append_assoc crs (b'\n' ∷ []) a,
      )
      ∙ read_eols w (suc (suc (suc (suc (rounds crs (suc f)))))) 0 0 body ch b es
          (codes "NNNN" ++ (crs ++ b'\n' ∷ a)) he
      ∙ read_mark w (rounds crs (suc f)) (0 + length es) (0 + length es) (body ++ es)
          (last_or ch es) (onto b es) (crs ++ b'\n' ∷ a) (omega arith)
      ∙ read_end_crs w (suc f) 4 0 (0 + length es + 4) ((body ++ es) ++ codes "NNNN") b'N'
          (onto (onto b es) (codes "NNNN")) crs (b'\n' ∷ a) refl hc
      ∙ step_end w f 4 (0 + length crs) (0 + length es + 4 + length crs)
          (((body ++ es) ++ codes "NNNN") ++ crs) (last_or b'N' crs)
          (onto (onto (onto b es) (codes "NNNN")) crs) b'\n' a (last_cr b'N' crs refl hc) refl
      ∙ cc
          (mark_count es crs, mark_regroup body es crs, mark_behind b es crs, zero-add (length crs))
