-- ===== src/Delivery/Unsaved.antt =====
-- A message whose decoder has a '/' in its name, as those of the BUFR messages do.
use mathlib.Core.Path.{subst}
use kvnorcom.Prelude.{
  ℕ, zero, suc, ◌+◌, ◌≡◌, refl, sym, ap, ◌∙◌, false, ◌==◌, Bool-cases, inl, inr, [], ◌∷◌, ◌++◌,
  append_assoc, is_empty, if◌then◌else◌,
}
use kvnorcom.Prelude.Bytes.{Bytes, codes}
use kvnorcom.Prelude.Decimal.{decimal}
use kvnorcom.Outcome.{Returns}
use kvnorcom.Config.{Config}
use kvnorcom.System.{System}
use kvnorcom.Raport.Messages.{MsgInfo}
use kvnorcom.Delivery.{max_count, candidate, write_template, write_file, save_message, decoder_of}

module _ {W : Type 0} (sys : System W) where
  -- No file of a directory can be opened for writing.
  abbrev pub NoneOpens : Bytes → Type 0
  NoneOpens dir = (name : Bytes) (w : W) → (sys.open_write (dir ++ b'/' ∷ name) w).0 ≡ false

  candidate-append :
      (dir name : Bytes) (i : ℕ)
      → (rest : Bytes) × (candidate sys (dir ++ b'/' ∷ name) i ≡ dir ++ b'/' ∷ rest)
  unfolding candidate
  candidate-append dir name i = elim (Bool-cases (i == 0)) [
    | inl first ↦ (name, rw first refl)
    | inr other ↦
        (name ++ b'_' ∷ decimal i, rw other (append_assoc dir (b'/' ∷ name) (b'_' ∷ decimal i)))
  ]

  candidate_closed :
      (dir name : Bytes) (i : ℕ) (w : W)
      → NoneOpens dir
      → (sys.open_write (candidate sys (dir ++ b'/' ∷ name) i) w).0 ≡ false
  candidate_closed dir name i w closed =
      let (rest, e) = candidate-append dir name i in
      ap (λ (file : Bytes). (sys.open_write file w).0) e ∙ closed rest w

  write_template-nowhere :
      (count i : ℕ) (dir name content : Bytes) (w : W)
      → NoneOpens dir
      → Returns
          (λ (p : Bytes × W). p.0 ≡ [])
          (write_template sys count i (dir ++ b'/' ∷ name) content w)
  unfolding write_template
  write_template-nowhere zero i dir name content w closed = refl
  write_template-nowhere (suc count) i dir name content w closed =
      let looked = (sys.open_read (candidate sys (dir ++ b'/' ∷ name) i) w).1 in
      elim (Bool-cases (sys.open_read (candidate sys (dir ++ b'/' ∷ name) i) w).0) [
        | inl exists ↦
            rw exists (write_template-nowhere count (i + 1) dir name content looked closed)
        | inr new ↦
            rw (new, candidate_closed dir name i looked closed)
              (write_template-nowhere count (i + 1) dir name content
                (sys.open_write (candidate sys (dir ++ b'/' ∷ name) i) looked).1 closed)
      ]

  decoder_of-extra :
      (decoder : Bytes) (info : MsgInfo) (c : ℕ) (cs : Bytes)
      → info.decoder_extra ≡ c ∷ cs
      → decoder_of sys decoder info ≡ decoder ++ b'/' ∷ c ∷ cs
  unfolding decoder_of
  decoder_of-extra decoder info c cs =
      ap (λ (e : Bytes). if is_empty e then decoder else decoder ++ b'/' ∷ e)

  subdirectory :
      (dir prefix decoder extra suffix time : Bytes)
      → dir ++ ((prefix ++ ((decoder ++ b'/' ∷ extra) ++ suffix)) ++ time)
        ≡ (dir ++ (prefix ++ decoder)) ++ b'/' ∷ (extra ++ (suffix ++ time))
  subdirectory dir prefix decoder extra suffix time = simp append_assoc refl

  -- A message's decoder has something behind its name, as that of every BUFR message has: a '/' then
  -- stands in it, so that the name of the file to save the message in is one of a subdirectory of
  -- data2kvdir. Where no file can be opened for writing in that directory, writeFile returns with no
  -- name, whatever else the system answers: the message is not saved.
  pub save_message-decoder_of :
      (conf : Config) (decoder text : Bytes) (info : MsgInfo) (c : ℕ) (cs : Bytes) (w : W)
      → info.decoder_extra ≡ c ∷ cs
      → NoneOpens (conf.data2kvdir ++ (codes "kvdata_" ++ decoder))
      → Returns
          (λ (p : Bytes × W). p.0 ≡ [])
          (save_message sys conf (decoder_of sys decoder info) text w)
  unfolding save_message write_file
  save_message-decoder_of conf decoder text info c cs w extra closed =
      subst (λ (d : Bytes). Returns (λ (p : Bytes × W). p.0 ≡ []) (save_message sys conf d text w))
        (sym (decoder_of-extra decoder info c cs extra))
        (subst
          (λ (stem : Bytes).
            Returns (λ (p : Bytes × W). p.0 ≡ [])
              (write_template sys max_count 0 stem
                ((decoder ++ b'/' ∷ c ∷ cs) ++ (b'\n' ∷ (text ++ codes "\n"))) (sys.now w).1))
          (sym (
            subdirectory conf.data2kvdir (codes "kvdata_") decoder (c ∷ cs) (codes "_")
              (sys.now w).0))
          (write_template-nowhere max_count 0 (conf.data2kvdir ++ (codes "kvdata_" ++ decoder))
            ((c ∷ cs) ++ (codes "_" ++ (sys.now w).0)) _ (sys.now w).1 closed))
