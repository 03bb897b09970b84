-- ===== src/Raport/Split.antt =====
-- split on a file of messages in their frames: it dispatches the messages in their order.
use mathlib.Core.Path.{fun_ext}
use kvnorcom.Prelude.{
  ℕ, zero, suc, ◌≤◌, ◌<◌, ◌≡◌, refl, Bool, true, false, List, [], ◌∷◌, length, arith,
}
use kvnorcom.Prelude.Bytes.{Bytes}
use kvnorcom.Outcome.{Outcome, returns, ◌>>=◌}
use kvnorcom.Stream.{reading}
use kvnorcom.Framing.Bulletins.{
  Bulletin, IsFramed, message, print_all, size, left, left-print, line_of, behind,
  get_message-print,
}
use kvnorcom.Raport.Kinds.{WmoRaports}
use kvnorcom.Raport.Handlers.{Library, WmoRaportState}
use kvnorcom.Raport.{dispatch, noted, on_message, decode_loop, split, not_matched_report}

-- Every bulletin is framed, and `fuel` suffices for each of them.
abbrev pub AllFramed : ℕ → List Bulletin → Type 0
AllFramed fuel [] = Unit
AllFramed fuel (x ∷ xs) = IsFramed x × (size x ≤ fuel) × AllFramed fuel xs

module _ (lib : Library) (junk fuel : ℕ) where
  -- One message with its ZCZC line: it is dispatched, and an error is noted.
  unfoldable pub dispatch_one : Bytes × Bytes → WmoRaportState → Outcome WmoRaportState
  unfolding noted
  dispatch_one (line, msg) r = do
    d ← dispatch lib junk fuel line (reading true [] msg) r
    returns (noted lib junk msg d)

  unfoldable pub dispatch_all : List (Bytes × Bytes) → WmoRaportState → Outcome WmoRaportState
  unfolding dispatch_one
  dispatch_all [] r = returns r
  dispatch_all (m ∷ ms) r = dispatch_one m r >>= dispatch_all ms

  -- What a file of bulletins holds: the messages with their lines.
  abbrev pub messages : List Bulletin → List (Bytes × Bytes)
  messages [] = []
  messages (x ∷ xs) = (line_of lib.trimstr junk true x, message x) ∷ messages xs

  decode_loop-print_all :
      (rounds : ℕ) (w : Bool) (b : Bytes) (xs : List Bulletin) (r : WmoRaportState)
      → AllFramed fuel xs
      → length xs < rounds
      → decode_loop lib junk fuel rounds (left w b (print_all xs)) r ≡ dispatch_all (messages xs) r
  unfolding decode_loop dispatch_all on_message
  decode_loop-print_all zero w b xs r h l = absurd (omega arith)
  decode_loop-print_all (suc rounds) w b [] r h l = refl
  decode_loop-print_all (suc rounds) w b (x ∷ xs) r (framed, enough, others) l = rw (
    left-print w b x (print_all xs),
    get_message-print lib.trimstr junk w fuel b x (print_all xs) framed enough,
    fun_ext (λ r'.
        decode_loop-print_all rounds w (behind lib.trimstr junk w b x) xs r' others (omega arith)),
  )

  -- On a file of bulletins in their frames, with a round for each of them and one more, and rounds
  -- for the loops inside that suffice for each, split is the dispatch of their messages in the order
  -- of the file: each on a stream of its own, and nothing that stands between the messages counts.
  pub split-print_all :
      (rounds : ℕ) (x : Bulletin) (xs : List Bulletin) (collect : WmoRaports) (r : WmoRaportState)
      → AllFramed fuel (x ∷ xs)
      → length (x ∷ xs) < rounds
      → split lib junk fuel rounds (print_all (x ∷ xs)) collect r ≡ (
          dispatch_all
            (messages (x ∷ xs))
            (record r { error_str = []; raports_to_collect = collect; not_matched = [] })
          >>= λ r'. returns (true, not_matched_report lib junk r'))
  unfolding split
  split-print_all rounds x xs collect r h l = cc (
    left-print false [] x (print_all xs),
    decode_loop-print_all rounds false [] (x ∷ xs)
        (record r { error_str = []; raports_to_collect = collect; not_matched = [] }) h l,
  )
