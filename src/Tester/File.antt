-- ===== src/Tester/File.antt =====
-- readFile of src/testWMORaport.cc.
pub mod Whole
use kvnorcom.Prelude.{
  ℕ, zero, suc, ◌+◌, Bool, true, false, not, ◌&&◌, Option, none, some, List, [], ◌∷◌, ◌++◌, ◌==◌,
  ltb, length, take, drop, if◌then◌else◌,
}
use kvnorcom.Prelude.Bytes.{Bytes, codes}
use kvnorcom.Prelude.Decimal.{decimal}
use kvnorcom.Outcome.{running}
use kvnorcom.System.{Action, ◌>>=◌, done}
use kvnorcom.Tester.Output.{Printed, to_cerr}

-- std::ostringstream::write of some bytes to a buffer: what the buffer holds behind it, and the
-- text of an exception.
abbrev pub Buffer : Type 0
Buffer = Bytes → Bytes → Bytes × Option Bytes

-- N, kept folded.
unfoldable pub block_size : ℕ
block_size = 256

-- ost, size and zerros.
pub record Reading : Type 0 where
  pub content : Bytes
  pub size : ℕ
  pub zeros : ℕ

-- The loop over a block.
unfoldable pub count_zeros : Bytes → ℕ → ℕ
count_zeros [] z = z
count_zeros (c ∷ cs) z = count_zeros cs (if c == 0 then z + 1 else z)

exception_text : Bytes → Reading → ℕ → Bytes
exception_text what v n =
    codes "Exception: "
    ++ (what
        ++ (codes " size: "
            ++ (decimal v.size
                ++ (codes " zeros: "
                    ++ (decimal v.zeros ++ (codes " n=" ++ (decimal n ++ codes "\n")))))))

module _ (buffer : Buffer) where
  -- The try block, behind the write; the number is that of the bytes.
  on_write : ℕ → Reading → Bytes × Option Bytes → Action Printed (Bool × Reading)
  unfolding exception_text
  on_write n v (content, none) = done (false, record v { content = content; size = v.size + n })
  on_write n v (content, some what) = do
    u ← to_cerr (exception_text what v n)
    done (true, record v { content = content })

  -- The loop's body, on the block that read gives: whether there is an error.
  unfoldable pub on_block : Bytes → Reading → Action Printed (Bool × Reading)
  unfolding on_write
  on_block [] v = done (false, v)
  on_block (c ∷ cs) v =
      on_write (length (c ∷ cs)) (record v { zeros = count_zeros (c ∷ cs) v.zeros })
        (buffer v.content (c ∷ cs))

  -- The loop's test, with what was to be read and whether the end of the file is behind that, or an
  -- error: a block that is not full has met what is behind. The end is `error` and fist.eof().
  go_on :
      Bytes
      → Bool
      → (Reading → Action Printed ((Bool × Bool) × Reading))
      → Bool × Reading
      → Action Printed ((Bool × Bool) × Reading)
  go_on rest ended again (true, v) = done ((true, ended && ltb (length rest) block_size), v)
  go_on rest ended again (false, v) =
      if ltb (length rest) block_size then done ((false, ended), v) else again v

  unfoldable pub read_loop : ℕ → Bytes → Bool → Reading → Action Printed ((Bool × Bool) × Reading)
  unfolding go_on
  read_loop zero rest ended v = λ p. running
  read_loop (suc fuel) rest ended v =
      let again : Reading → Action Printed ((Bool × Bool) × Reading) =
        λ v'. read_loop fuel (drop block_size rest) ended v' in
      do r ← on_block (take block_size rest) v; go_on rest ended again r

  -- What is printed of a file that has been read.
  unfoldable pub content_text : Reading → Bytes
  content_text v =
      codes "Content: size: "
      ++ (decimal (length v.content)
          ++ (codes " readN: "
              ++ (decimal v.size ++ (codes " zeros: " ++ (decimal v.zeros ++ codes "\n")))))

  -- The end of readFile; none is false.
  unfoldable pub end_file : (Bool × Bool) × Reading → Action Printed (Option Bytes)
  end_file ((error, eof), v) = elim (error && not eof) [
    | true ↦ (do u ← to_cerr (codes "ERROR error: true ! eof\n"); done none)
    | false ↦ (do u ← to_cerr (content_text v); done (some v.content))
  ]

  -- readFile of a file: none if it cannot be opened, or what it holds and whether its end can be
  -- met.
  unfoldable pub read_file : ℕ → Option (Bytes × Bool) → Action Printed (Option Bytes)
  read_file fuel none = done none
  read_file fuel (some (text, ended)) = do
    r ← read_loop fuel text ended (record { content = []; size = 0; zeros = 0 })
    end_file r
