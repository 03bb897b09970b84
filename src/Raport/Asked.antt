-- ===== src/Raport/Asked.antt =====
-- A split returns, and keeps no message of a type that was not asked for.
use mathlib.Core.Path.{subst}
use kvnorcom.Prelude.{
  ℕ, suc, ◌+◌, ◌<◌, ◌≡◌, refl, sym, ◌∙◌, Bool, true, false, inl, inr, ◌⊎◌, Bool-cases, Option-cases,
  List, [], ◌∷◌, ==_iff, is_empty, length, arith,
}
use kvnorcom.Prelude.Bytes.{Bytes}
use kvnorcom.Outcome.{Outcome, returns, fault, running, Returns, Returns-bind}
use kvnorcom.Stream.{IStream, reading}
use kvnorcom.Lines.{skip_empty_lines}
use kvnorcom.Lines.Rest.{Rest, Rest-mono, skip_empty_lines-Rest}
use kvnorcom.Framing.Bulletins.{Bulletin, print_all, message}
use kvnorcom.Raport.Kinds.{
  WmoRaport, WmoRaports, synop, ordinal, ordinal-injective, contains, same_raport,
}
use kvnorcom.Raport.Handlers.{Library, WmoRaportState}
use kvnorcom.Raport.{
  messages_of, do_dispatch, classify, header_patterns, dispatch_on, dispatch, noted,
  not_matched_report, no_messages, split,
}
use kvnorcom.Raport.Effects.{OnlyMessagesOf, do_dispatch-OnlyMessagesOf}
use kvnorcom.Raport.Total.{Any, handler-Any}
use kvnorcom.Raport.Split.{AllFramed, dispatch_one, dispatch_all, messages, split-print_all}

-- The object collects `asked`, and each type is asked for or has no messages.
abbrev pub OnlyAsked : WmoRaports → WmoRaportState → Type 0
OnlyAsked asked r =
    (r.raports_to_collect ≡ asked)
    × ((k : WmoRaport) → (contains asked k ≡ true) ⊎ (messages_of r k ≡ []))

same_kind : (j k : WmoRaport) → same_raport j k ≡ true → k ≡ j
same_kind j k h = ordinal-injective k j (sym ((==_iff (ordinal j) (ordinal k)).0 h))

-- What is written to the errors does not count.
error_str-OnlyAsked :
    (asked : WmoRaports) (r : WmoRaportState) (t : Bytes)
    → OnlyAsked asked r
    → OnlyAsked asked (record r { error_str = t })
unfolding messages_of
error_str-OnlyAsked asked r t (e, o) = (e, λ k. of k (o k))
  where
    of :
        (k : WmoRaport)
        → (contains asked k ≡ true) ⊎ (messages_of r k ≡ [])
        → (contains asked k ≡ true) ⊎ (messages_of (record r { error_str = t }) k ≡ [])
    of synop h = h
    of _ h = h

not_matched_report-OnlyAsked :
    (lib : Library) (junk : ℕ) (asked : WmoRaports) (r : WmoRaportState)
    → OnlyAsked asked r
    → OnlyAsked asked (not_matched_report lib junk r)
unfolding not_matched_report
not_matched_report-OnlyAsked lib junk asked r h =
    elim (Bool-cases (is_empty (lib.trim r.not_matched))) [
      | inl nothing ↦ rw nothing h
      | inr something ↦ rw something (error_str-OnlyAsked asked r _ h)
    ]

no_messages-OnlyAsked : (asked : WmoRaports) → OnlyAsked asked (no_messages asked)
unfolding messages_of
no_messages-OnlyAsked asked = (refl, none_of)
  where
    none_of : (k : WmoRaport) → (contains asked k ≡ true) ⊎ (messages_of (no_messages asked) k ≡ [])
    none_of synop = inr refl
    none_of _ = inr refl

module _ (asked : WmoRaports) (some_asked : is_empty asked ≡ false) where
  -- The messages of a type that is asked for have changed at most.
  OnlyMessagesOf-OnlyAsked :
      (k : WmoRaport) (r r' : WmoRaportState) (ok : Bool)
      → contains asked k ≡ true
      → OnlyAsked asked r
      → OnlyMessagesOf k r (returns (ok, r'))
      → OnlyAsked asked r'
  OnlyMessagesOf-OnlyAsked k r r' ok wanted (same, old) (kept, set) = (set ∙ same, λ j. of j)
    where
      of : (j : WmoRaport) → (contains asked j ≡ true) ⊎ (messages_of r' j ≡ [])
      of j = elim (Bool-cases (same_raport j k)) [
        | inl equal ↦
            inl (subst (λ (i : WmoRaport). contains asked i ≡ true) (same_kind j k equal) wanted)
        | inr other ↦ elim (old j) [
          | inl asked_for ↦ inl asked_for
          | inr nothing ↦ inr (kept j other ∙ nothing)
        ]
      ]

  module _ (lib : Library) (junk f n : ℕ) (header line : Bytes) (s : IStream)
      (left : Rest (suc n) s) (fuel : suc n < f) where
    do_dispatch-OnlyAsked :
        (k : WmoRaport) (r : WmoRaportState)
        → OnlyAsked asked r
        → Returns
            (λ (p : Bool × WmoRaportState). OnlyAsked asked p.1)
            (do_dispatch lib junk k f header line s r)
    do_dispatch-OnlyAsked k r h = elim (Bool-cases (contains asked k)) [
      | inr other ↦ rw (skipped k r h other) h
      | inl wanted ↦
          both k r wanted h _ (dispatched k r wanted h)
            (do_dispatch-OnlyMessagesOf lib junk f header line s r k)
    ]
      where
        skipped :
            (k : WmoRaport) (r : WmoRaportState)
            → OnlyAsked asked r
            → contains asked k ≡ false
            → do_dispatch lib junk k f header line s r ≡ returns (true, r)
        skipped k r (e, o) other = unfold do_dispatch in simp (e, some_asked, other) refl

        dispatched :
            (k : WmoRaport) (r : WmoRaportState)
            → contains asked k ≡ true
            → OnlyAsked asked r
            → Returns (Any {A = Bool × WmoRaportState}) (do_dispatch lib junk k f header line s r)
        dispatched k r wanted (e, o) =
            unfold do_dispatch in
            simp (e, some_asked, wanted) (handler-Any lib junk f n header line s r left fuel k)

        both :
            (k : WmoRaport) (r : WmoRaportState)
            → contains asked k ≡ true
            → OnlyAsked asked r
            → (m : Outcome (Bool × WmoRaportState)) → Returns Any m
            → OnlyMessagesOf k r m
            → Returns (λ (p : Bool × WmoRaportState). OnlyAsked asked p.1) m
        both k r wanted h (returns (ok, r')) u o = OnlyMessagesOf-OnlyAsked k r r' ok wanted h o
        both k r wanted h fault u o = absurd u
        both k r wanted h running u o = absurd u

  -- The state that a dispatch leaves.
  abbrev Kept : Bool × WmoRaportState → Type 0
  Kept (ok, r) = OnlyAsked asked r

  module _ (lib : Library) (junk f : ℕ) where
    dispatch_on-OnlyAsked :
        (n : ℕ) (line : Bytes) (r : WmoRaportState) (p : Bytes × IStream)
        → Rest (suc n) p.1
        → suc n < f
        → OnlyAsked asked r
        → Returns Kept (dispatch_on lib junk f line r p)
    unfolding dispatch_on
    dispatch_on-OnlyAsked n line r (header, s) left l h = elim (Bool-cases (is_empty header)) [
      | inl nothing ↦ rw nothing h
      | inr something ↦
          rw something (elim (Option-cases (classify lib junk header_patterns header)) [
            | inl unknown ↦ rw unknown h
            | inr (k, known) ↦
                rw known (do_dispatch-OnlyAsked lib junk f n header line s left l k r h)
          ])
    ]

    -- A message is dispatched in a round for each of its characters and two more.
    dispatch-OnlyAsked :
        (line : Bytes) (w : Bool) (b a : Bytes) (r : WmoRaportState)
        → length a + 1 < f
        → OnlyAsked asked r
        → Returns Kept (dispatch lib junk f line (reading w b a) r)
    unfolding dispatch
    dispatch-OnlyAsked line w b a r l h =
        Returns-bind (λ (p : Bytes × IStream). Rest (length a) p.1) Kept
          (skip_empty_lines junk f (reading w b a)) (dispatch_on lib junk f line r)
          (skip_empty_lines-Rest junk f (length a) (reading w b a)
            (Rest.live w b a refl (omega arith)) (omega arith))
          (λ p rest.
            dispatch_on-OnlyAsked (length a) line r p
              (Rest-mono (length a) (suc (length a)) (omega arith) rest) (omega arith) h)

    noted-OnlyAsked :
        (msg : Bytes) (p : Bool × WmoRaportState) → Kept p → OnlyAsked asked (noted lib junk msg p)
    unfolding noted
    noted-OnlyAsked msg (true, r) h = h
    noted-OnlyAsked msg (false, r) h = error_str-OnlyAsked asked r _ h

    dispatch_one-OnlyAsked :
        (line msg : Bytes) (r : WmoRaportState)
        → length msg + 1 < f
        → OnlyAsked asked r
        → Returns (OnlyAsked asked) (dispatch_one lib junk f (line, msg) r)
    unfolding dispatch_one
    dispatch_one-OnlyAsked line msg r l h =
        Returns-bind Kept (OnlyAsked asked) (dispatch lib junk f line (reading true [] msg) r) _
          (dispatch-OnlyAsked line true [] msg r l h) (noted-OnlyAsked msg)

    dispatch_all-OnlyAsked :
        (xs : List Bulletin) (r : WmoRaportState)
        → AllFramed f xs
        → OnlyAsked asked r
        → Returns (OnlyAsked asked) (dispatch_all lib junk f (messages lib junk f xs) r)
    unfolding dispatch_all
    dispatch_all-OnlyAsked [] r framed h = h
    dispatch_all-OnlyAsked (x ∷ xs) r (one, enough, others) h =
        Returns-bind (OnlyAsked asked) (OnlyAsked asked) (dispatch_one lib junk f _ r) _
          (dispatch_one-OnlyAsked _ (message x) r (omega arith) h)
          (λ r' h'. dispatch_all-OnlyAsked xs r' others h')

    -- A file of bulletins in their frames is split, with a round for each bulletin and one more and
    -- enough rounds for each of them. A new object that is asked for some types then has messages of
    -- no other type.
    pub split-OnlyAsked :
        (rounds : ℕ) (x : Bulletin) (xs : List Bulletin)
        → AllFramed f (x ∷ xs)
        → length (x ∷ xs) < rounds
        → Returns
            (λ (p : Bool × WmoRaportState). (p.0 ≡ true) × OnlyAsked asked p.1)
            (split lib junk f rounds (print_all (x ∷ xs)) asked (no_messages []))
    split-OnlyAsked rounds x xs framed l =
        rw (split-print_all lib junk f rounds x xs asked (no_messages []) framed l) (
          Returns-bind (OnlyAsked asked)
            (λ (p : Bool × WmoRaportState). (p.0 ≡ true) × OnlyAsked asked p.1)
            (dispatch_all lib junk f (messages lib junk f (x ∷ xs)) (no_messages asked)) _
            (dispatch_all-OnlyAsked (x ∷ xs) (no_messages asked) framed
              (no_messages-OnlyAsked asked))
            (λ r h. (refl, not_matched_report-OnlyAsked lib junk asked r h)))
