-- ===== src/Files/Growth.antt =====
-- Polls of a file that only grows.
use kvnorcom.Prelude.{
  ◌≡◌, refl, true, inl, inr, List, [], ◌∷◌, ◌++◌, leb, lt→ltb, ◌⊎◌, take-append-drop, length-take,
  flatten, ◌≤◌, ◌<◌, ==_iff, length, take, drop, length-append, take-append, drop-append, arith,
}
use kvnorcom.Prelude.Bytes.{Bytes}
use kvnorcom.Crc.{crc_ccitt}
use kvnorcom.Files.{FInfo, new_obs_part}

-- The entry records `text` as what has been sent of the file.
abbrev pub Sent : Bytes → FInfo → Type 0
Sent text fi = (fi.offset ≡ length text) × (fi.crc ≡ crc_ccitt text)

-- Whatever the entry was, it records the whole content after a poll.
pub new_obs_part-Sent : (obs : Bytes) (fi : FInfo) → Sent obs (new_obs_part obs fi).1
unfolding new_obs_part
new_obs_part-Sent obs fi = (refl, refl)

-- Where the content begins with what has been sent, the rest of it is new.
pub new_obs_part-append :
    (text new : Bytes) (fi : FInfo) → Sent text fi → (new_obs_part (text ++ new) fi).0 ≡ new
unfolding new_obs_part
new_obs_part-append [] new fi (o, c) = simp o refl
new_obs_part-append (t ∷ ts) new fi (o, c) =
    let in_it : leb (length (t ∷ ts)) (length ((t ∷ ts) ++ new)) ≡ true =
      ground (arith, length-append (t ∷ ts) new) in
    simp
      (
        o,
        c,
        lt→ltb 0 (length (t ∷ ts)) (omega arith),
        in_it,
        take-append (t ∷ ts) new,
        drop-append (t ∷ ts) new,
        (==_iff (crc_ccitt (t ∷ ts)) _).1 refl,
      )
      refl

-- What a series of polls of a growing file hands on: `text` stood in it before, and each of
-- `chunks` is what has been appended when it is polled next.
unfoldable pub handed_on : Bytes → List Bytes → FInfo → Bytes
handed_on text [] fi = []
handed_on text (c ∷ cs) fi =
    (new_obs_part (text ++ c) fi).0 ++ handed_on (text ++ c) cs (new_obs_part (text ++ c) fi).1

-- Over any number of polls of a file that only grows, what is handed on is what was appended, each
-- byte once and in its order, from an entry that records what stood in the file before.
pub handed_on-appended :
    (text : Bytes) (chunks : List Bytes) (fi : FInfo)
    → Sent text fi
    → handed_on text chunks fi ≡ flatten chunks
unfolding handed_on flatten
handed_on-appended text [] fi h = refl
handed_on-appended text (c ∷ cs) fi h =
    rw
      (
        new_obs_part-append text c fi h,
        handed_on-appended (text ++ c) cs (new_obs_part (text ++ c) fi).1
            (new_obs_part-Sent (text ++ c) fi),
      )
      refl

-- The part that is new, by what the entry records.
new_part_known :
    (obs : Bytes) (fi : FInfo)
    → (0 < fi.offset) × (fi.offset ≤ length obs) × (crc_ccitt (take fi.offset obs) ≡ fi.crc)
    → (new_obs_part obs fi).0 ≡ drop fi.offset obs
unfolding new_obs_part
new_part_known obs fi (p, l, c) = ground (arith, ==_iff (crc_ccitt (take fi.offset obs)) fi.crc)

pub new_part_other :
    (obs : Bytes) (fi : FInfo)
    → ((0 < fi.offset) × (fi.offset ≤ length obs) × (crc_ccitt (take fi.offset obs) ≡ fi.crc))
      ⊎ ((new_obs_part obs fi).0 ≡ obs)
unfolding new_obs_part
new_part_other obs fi = ground (arith, ==_iff (crc_ccitt (take fi.offset obs)) fi.crc)

-- What is handed on is the end of the content. What stands in front of it is nothing, or a text of
-- the length and the checksum that the entry recorded; the entry then records the whole content.
pub new_obs_part-suffix :
    (obs : Bytes) (fi : FInfo)
    → ((before : Bytes) × (before ++ (new_obs_part obs fi).0 ≡ obs)
        × ((before ≡ []) ⊎ ((length before ≡ fi.offset) × (crc_ccitt before ≡ fi.crc))))
      × Sent obs (new_obs_part obs fi).1
new_obs_part-suffix obs fi = (
  elim (new_part_other obs fi) [
    | inl (p, l, c) ↦ (
      take fi.offset obs,
      rw (new_part_known obs fi (p, l, c)) (take-append-drop fi.offset obs),
      inr (length-take fi.offset obs l, c),
    )
    | inr all_new ↦ ([], all_new, inl refl)
  ],
  new_obs_part-Sent obs fi,
)
