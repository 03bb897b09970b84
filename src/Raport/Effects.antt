-- ===== src/Raport/Effects.antt =====
-- What the handlers change of the object, and what they leave alone.
use kvnorcom.Prelude.{
  ℕ, ◌≡◌, refl, Bool, true, false, not, ◌&&◌, inl, inr, Bool-cases, is_empty, ltb, length, take,
  ◌||◌,
}
use kvnorcom.Prelude.Bytes.{Bytes, codes, equal}
use kvnorcom.Outcome.{Outcome, returns, fault, running, ◌>>=◌}
use kvnorcom.Stream.{IStream}
use kvnorcom.Raport.Kinds.{
  WmoRaport, synop, metar, temp, pilo, arep, drau, bath, tide, bufr_surface, contains, same_raport,
}
use kvnorcom.Raport.Messages.{MsgMap}
use kvnorcom.Raport.Handlers.{
  Library, WmoRaportState, do_synop, do_metar, do_bufr_surface, bufr_message, do_not_implemented,
}
use kvnorcom.Raport.{messages_of, handler, do_dispatch}

-- What a call may have changed: the messages of type `k` and nothing else of the messages, nor the
-- set of types to collect.
abbrev pub OnlyMessagesOf : WmoRaport → WmoRaportState → Outcome (Bool × WmoRaportState) → Type 0
OnlyMessagesOf k r (returns (done, r')) =
    ((j : WmoRaport) → same_raport j k ≡ false → messages_of r' j ≡ messages_of r j)
    × (r'.raports_to_collect ≡ r.raports_to_collect)
OnlyMessagesOf k r fault = Unit
OnlyMessagesOf k r running = Unit

bind-OnlyMessagesOf {ℓ} :
    {A : Type ℓ} (k : WmoRaport) (r : WmoRaportState) (m : Outcome A)
    (f : A → Bool × WmoRaportState)
    → ((a : A) → OnlyMessagesOf k r (returns (f a)))
    → OnlyMessagesOf k r (m >>= λ a. returns (f a))
bind-OnlyMessagesOf k r (returns a) f h = h a
bind-OnlyMessagesOf k r fault f h = tt
bind-OnlyMessagesOf k r running f h = tt

not_implemented-OnlyMessagesOf :
    (k : WmoRaport) (name header : Bytes) (r : WmoRaportState)
    → OnlyMessagesOf k r (returns (do_not_implemented name header r))
unfolding do_not_implemented messages_of
not_implemented-OnlyMessagesOf k name header r = (λ j h. kept j, refl)
  where
    kept : (j : WmoRaport) → messages_of (do_not_implemented name header r).1 j ≡ messages_of r j
    kept synop = refl
    kept _ = refl

module _ (lib : Library) (junk fuel : ℕ) (header line : Bytes) (s : IStream)
    (r : WmoRaportState) where
  synop-OnlyMessagesOf : OnlyMessagesOf synop r (do_synop lib junk fuel s r)
  unfolding do_synop messages_of
  synop-OnlyMessagesOf =
      bind-OnlyMessagesOf synop r _ (λ m. (true, record r { synop_map = m })) λ m. (kept m, refl)
    where
      kept :
          (m : MsgMap) (j : WmoRaport)
          → same_raport j synop ≡ false
          → messages_of (record r { synop_map = m }) j ≡ messages_of r j
      kept m synop h = cc
      kept m _ h = refl

  metar-OnlyMessagesOf : OnlyMessagesOf metar r (do_metar lib junk fuel s r)
  unfolding do_metar messages_of
  metar-OnlyMessagesOf =
      bind-OnlyMessagesOf metar r _ (λ m. (true, record r { metar_map = m })) λ m. (kept m, refl)
    where
      kept :
          (m : MsgMap) (j : WmoRaport)
          → same_raport j metar ≡ false
          → messages_of (record r { metar_map = m }) j ≡ messages_of r j
      kept m metar h = cc
      kept m _ h = refl

  bufr-OnlyMessagesOf : OnlyMessagesOf bufr_surface r (do_bufr_surface lib fuel header line s r)
  unfolding do_bufr_surface messages_of
  bufr-OnlyMessagesOf =
      bind-OnlyMessagesOf bufr_surface r _ (λ p. bufr_message lib header line r p.0) (λ p. kept p.0)
    where
      same :
          (m : MsgMap) (j : WmoRaport)
          → same_raport j bufr_surface ≡ false
          → messages_of (record r { bufr_surface_map = m }) j ≡ messages_of r j
      same m bufr_surface h = cc
      same m _ h = refl

      kept :
          (a : Bytes) → OnlyMessagesOf bufr_surface r (returns (bufr_message lib header line r a))
      kept a = elim (Bool-cases (ltb (length a) 4 || not (equal (take 4 a) (codes "BUFR")))) [
        | inl bad ↦ rw bad (λ j h. refl, refl)
        | inr bufr ↦ rw bufr (same _, refl)
      ]

  handler-OnlyMessagesOf :
      (k : WmoRaport) → OnlyMessagesOf k r (handler lib junk k fuel header line s r)
  unfolding handler
  handler-OnlyMessagesOf synop = synop-OnlyMessagesOf
  handler-OnlyMessagesOf metar = metar-OnlyMessagesOf
  handler-OnlyMessagesOf bufr_surface = bufr-OnlyMessagesOf
  handler-OnlyMessagesOf temp = not_implemented-OnlyMessagesOf temp (codes "TEMP") header r
  handler-OnlyMessagesOf pilo = not_implemented-OnlyMessagesOf pilo (codes "PILO") header r
  handler-OnlyMessagesOf arep = not_implemented-OnlyMessagesOf arep (codes "AREP") header r
  handler-OnlyMessagesOf drau = not_implemented-OnlyMessagesOf drau (codes "DRAU") header r
  handler-OnlyMessagesOf bath = not_implemented-OnlyMessagesOf bath (codes "BATH") header r
  handler-OnlyMessagesOf tide = not_implemented-OnlyMessagesOf tide (codes "TIDE") header r

  -- A bulletin of type `k` changes the messages of that type at most: those of the other types and
  -- the set of types to collect stay, whatever the handler returns.
  pub do_dispatch-OnlyMessagesOf :
      (k : WmoRaport) → OnlyMessagesOf k r (do_dispatch lib junk k fuel header line s r)
  unfolding do_dispatch
  do_dispatch-OnlyMessagesOf k =
      elim (Bool-cases
        (not (is_empty r.raports_to_collect) && not (contains r.raports_to_collect k))) [
          | inl out ↦ rw out (λ j h. refl, refl)
          | inr wanted ↦ rw wanted (handler-OnlyMessagesOf k)
        ]
