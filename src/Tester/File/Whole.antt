-- ===== src/Tester/File/Whole.antt =====
-- What readFile makes of a file.
use kvnorcom.Prelude.{
  ℕ, zero, suc, ◌+◌, ◌<◌, ◌≤◌, ◌≡◌, refl, ap, ◌∙◌, true, false, ◌==◌, Bool-cases, inl, inr, none,
  some, [], ◌∷◌, ◌++◌, append-nil, append_assoc, length, take, drop, ltb, ltb→lt, if◌then◌else◌,
  length-append, take-append-drop, take_all, length-take, arith,
}
use kvnorcom.Prelude.Bytes.{Bytes}
use kvnorcom.Outcome.{returns}
use kvnorcom.Tester.Output.{Printed}
use kvnorcom.Tester.File.{
  Buffer, Reading, block_size, count_zeros, on_write, on_block, go_on, read_loop, content_text,
  end_file, read_file,
}

-- A write of the stream succeeds, and puts the bytes behind those that are there.
abbrev pub IsFaithful : Buffer → Type 0
IsFaithful buffer = (a b : Bytes) → buffer a b ≡ (a ++ b, none)

-- What has been read, and a text behind it.
abbrev pub more : Reading → Bytes → Reading
more v text = record {
  content = v.content ++ text;
  size = v.size + length text;
  zeros = count_zeros text v.zeros;
}

count_zeros-append :
    (a b : Bytes) (z : ℕ) → count_zeros (a ++ b) z ≡ count_zeros b (count_zeros a z)
unfolding count_zeros
count_zeros-append [] b z = refl
count_zeros-append (c ∷ a) b z = count_zeros-append a b (if c == 0 then z + 1 else z)

length-drop : (n : ℕ) (xs : Bytes) → n ≤ length xs → length (drop n xs) + n ≡ length xs
length-drop n xs h = omega (
  arith,
  length-take n xs h,
  ap length (take-append-drop n xs),
  length-append (take n xs) (drop n xs),
)

block_size-positive : 0 < block_size
unfolding block_size
block_size-positive = omega arith

add_zero : (n : ℕ) → n + 0 ≡ n
add_zero n = omega arith

more-append : (v : Reading) (a b : Bytes) → more (more v a) b ≡ more v (a ++ b)
more-append v a b =
    let size : v.size + length (a ++ b) ≡ v.size + length a + length b =
      omega (arith, length-append a b) in
    rw (append_assoc v.content a b, size, count_zeros-append a b v.zeros) refl

-- All of a text has been read.
abbrev pub counted : Bytes → Reading
counted text = record { content = text; size = length text; zeros = count_zeros text 0 }

zero_add : (n : ℕ) → 0 + n ≡ n
zero_add n = omega arith

more-counted :
    (text : Bytes) → more (record { content = []; size = 0; zeros = 0 }) text ≡ counted text
more-counted text = rw (zero_add (length text)) refl

at_least : (a b : ℕ) → ltb a b ≡ false → b ≤ a
at_least a b h = ground arith

module _ (buffer : Buffer) (faithful : IsFaithful buffer) where
  on_block-more :
      (block : Bytes) (v : Reading) (p : Printed)
      → on_block buffer block v p ≡ returns ((false, more v block), p)
  unfolding on_block on_write count_zeros
  on_block-more [] v p = rw (append-nil v.content, add_zero v.size) refl
  on_block-more (c ∷ cs) v p = rw (on_block, faithful v.content (c ∷ cs)) refl

  read_loop-more :
      (fuel : ℕ) (rest : Bytes) (v : Reading) (p : Printed)
      → length rest < fuel
      → read_loop buffer fuel rest true v p ≡ returns (((false, true), more v rest), p)
  unfolding read_loop go_on
  read_loop-more zero rest v p h = absurd (omega arith)
  read_loop-more (suc fuel) rest v p h = elim (Bool-cases (ltb (length rest) block_size)) [
    | inl last ↦
        rw
          (
            read_loop,
            on_block-more (take block_size rest) v p,
            go_on,
            last,
            take_all block_size rest (ltb→lt (length rest) block_size last),
          )
          refl
    | inr full ↦
        let block = take block_size rest in
        let behind = drop block_size rest in
        let fewer = length-drop block_size rest (at_least (length rest) block_size full) in
        rw (read_loop, on_block-more block v p, go_on, full)
          (read_loop-more fuel behind (more v block) p (omega (arith, fewer, block_size-positive))
            ∙ ap (λ (u : Reading). returns (((false, true), u), p))
                (more-append v block behind ∙ ap (more v) (take-append-drop block_size rest)))
  ]

  -- A file that can be opened and read to its end is handed over as it is.
  pub read_file-whole :
      (fuel : ℕ) (text : Bytes) (p : Printed)
      → length text < fuel
      → read_file buffer fuel (some (text, true)) p
        ≡ returns (some text, record p { cerr = p.cerr ++ content_text buffer (counted text) })
  unfolding read_file end_file
  read_file-whole fuel text p h =
      rw
        (
          read_file,
          read_loop-more fuel text (record { content = []; size = 0; zeros = 0 }) p h,
          more-counted text,
        )
        refl
