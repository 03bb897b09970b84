-- ===== src/Tests/StateFile.antt =====
-- The file of the list of known files, with a concrete reader and a system of one file.
use kvnorcom.Prelude.{
  ℕ, zero, suc, ◌^◌, ◌<◌, [], ◌++◌, ◌∷◌, ◌≡◌, refl, sym, ap, ◌∙◌, true, false, none, some, Option,
  if◌then◌else◌, arith, ◌==◌, ltb, ==_iff, append_assoc,
}
use kvnorcom.Prelude.Bytes.{Bytes, codes, lacks}
use kvnorcom.Prelude.Decimal.{value, value-decimal}
use kvnorcom.Map.Order.{less}
use kvnorcom.Outcome.{Returns}
use kvnorcom.System.{System, throws, ◌>>=◌}
use kvnorcom.System.File.{Stat}
use kvnorcom.Files.{FInfo, new_info}
use kvnorcom.Collector.{FInfoList}
use kvnorcom.Collector.StateFile.{Reader, save_finfo_list, read_finfo_list}
use kvnorcom.Collector.StateFile.Restart.{
  IsLawful, KeepsText, survivors, read_finfo_list-save_finfo_list,
}

-- The text split at the last character `c`.
unfoldable pub split_last : ℕ → Bytes → Option (Bytes × Bytes)
split_last c [] = none
split_last c (x ∷ xs) = elim (split_last c xs) [
  | some (a, b) ↦ some (x ∷ a, b)
  | none ↦ if x == c then some ([], xs) else none
]

abbrev pub pick : Bytes → Bytes → Bytes → ℕ → Bytes
pick a b c zero = []
pick a b c (suc zero) = a
pick a b c (suc (suc zero)) = b
pick a b c (suc (suc (suc i))) = c

-- The match of the state file's pattern.
unfoldable pub three_parts : Bytes → Option (ℕ → Bytes)
unfolding split_last
three_parts text = elim (split_last b':' text) [
  | none ↦ none
  | some (ab, c) ↦ elim (split_last b':' ab) [ none ↦ none | some (a, b) ↦ some (pick a b c) ]
]

split_last-lacks : (c : ℕ) (xs : Bytes) → lacks c xs ≡ true → split_last c xs ≡ none
unfolding split_last
split_last-lacks c [] h = refl
split_last-lacks c (x ∷ xs) h = ground (arith, split_last-lacks c xs)

split_last-append :
    (c : ℕ) (a b : Bytes) → lacks c b ≡ true → split_last c (a ++ c ∷ b) ≡ some (a, b)
unfolding split_last
split_last-append c [] b h = rw (split_last-lacks c b h, (==_iff c c).1 refl)
split_last-append c (x ∷ a) b h = rw (split_last-append c a b h)

three_parts-append :
    (a b c : Bytes)
    → lacks b':' b ≡ true
    → lacks b':' c ≡ true
    → three_parts (a ++ b':' ∷ (b ++ b':' ∷ c)) ≡ some (pick a b c)
unfolding three_parts
three_parts-append a b c hb hc =
    ap (λ (t : Bytes). three_parts t) (sym (append_assoc a (b':' ∷ b) (b':' ∷ c)))
    ∙ rw (split_last-append b':' (a ++ b':' ∷ b) c hc, three_parts)
        (rw (split_last-append b':' a b hb))

-- A number that an unsigned int holds.
abbrev pub in_word : ℕ → Option ℕ
in_word n = if ltb n (2 ^ 32) then some n else none

abbrev pub plain_reader : Reader
plain_reader = record {
  regex_match = λ p text. three_parts text;
  cast_long = λ ds. some (value 0 ds);
  cast_unsigned = λ ds. in_word (value 0 ds);
}

pub plain_reader_in_range :
    (ds : Bytes) (n : ℕ) → plain_reader.cast_unsigned ds ≡ some n → n < 2 ^ 32
plain_reader_in_range ds n h = ground arith

pub plain_reader-IsLawful : IsLawful plain_reader
plain_reader-IsLawful = record {
  matches = λ a b c hb hc. (pick a b c, three_parts-append a b c hb hc, refl, refl, refl);
  longs = λ n h. ap (λ (m : ℕ). some m) (value-decimal n);
  unsigneds = λ n h. ap in_word (value-decimal n) ∙ ground arith;
}

abbrev pub stats : Bytes → Option Stat
stats [] = none
stats (c ∷ cs) = if c == b'a' then some (record { mtime = 7; regular = true }) else none

-- The surroundings are the content of the one file.
abbrev pub one_file : System Bytes
one_file = record {
  stat = λ name w. (stats name, w);
  copyfile = λ a b w. (false, w);
  unlink = λ name w. w;
  read_stream = λ name w. (some (w, true), w);
  open_read = λ name w. (true, w);
  open_write = λ name w. (true, []);
  write = λ name text w. (true, text);
  list_dir = λ path p w. (none, w);
  now = λ w. (codes "20240101T000000", w);
  time = λ w. (0, w);
  sleep = λ n w. w;
  shutdown = λ w. (false, w);
  host = codes "kvalobs";
  new_data = λ m t w. (throws (codes "refused"), w);
  new_data_to = λ server m t w. (throws (codes "refused"), w);
}

pub one_file-KeepsText : (name : Bytes) → KeepsText one_file name
one_file-KeepsText name = record { opens = λ w. refl; emptied = λ w. refl; kept = λ text w. refl }

abbrev pub entry : Bytes → ℕ → Bytes × FInfo
entry name offset = (
  name,
  record (new_info (record { name = name; stat = record { mtime = 5; regular = true } })) {
    offset = offset;
    crc = 0x2189;
    collected = true;
  },
)

abbrev pub two_files : FInfoList
two_files = entry (codes "a:1") 120 ∷ entry (codes "b") 9 ∷ []

read_finfo_list-save_finfo_list_example :
    Returns
      (λ (p : FInfoList × Bytes).
        p.0 ≡ survivors one_file plain_reader plain_reader-IsLawful (λ name w. refl) p.1 two_files)
      ((save_finfo_list one_file (codes "state") two_files >>= λ ok.
          read_finfo_list one_file plain_reader (codes "state") [])
        [])
unfolding less
read_finfo_list-save_finfo_list_example =
    read_finfo_list-save_finfo_list one_file plain_reader plain_reader-IsLawful (λ name w. refl)
      (codes "state") two_files [] (one_file-KeepsText (codes "state")) ((refl, tt), (tt, tt))
      (
        record {
          named = refl;
          one_line = refl;
          offset_long = omega arith;
          crc_unsigned = omega arith;
        },
        (
          record {
            named = refl;
            one_line = refl;
            offset_long = omega arith;
            crc_unsigned = omega arith;
          },
          tt,
        ),
      )
