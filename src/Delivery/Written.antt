-- ===== src/Delivery/Written.antt =====
-- The file that writeFile writes.
use kvnorcom.Prelude.{
  ℕ, zero, suc, ◌+◌, ◌≡◌, refl, Bool, true, false, Bool-cases, inl, inr, ◌⊎◌, some, ◌++◌, is_empty,
}
use kvnorcom.Prelude.Bytes.{Bytes}
use kvnorcom.Outcome.{Returns}
use kvnorcom.System.{System}
use kvnorcom.Delivery.{max_count, candidate, write_content, write_template, write_file}

module _ {W : Type 0} (sys : System W) where
  -- A file that was opened for writing, and whose writing and closing went well, holds what was
  -- written.
  abbrev pub Writes : Type 0
  Writes =
      (name text : Bytes) (w : W)
      → (sys.open_write name w).0 ≡ true
      → (sys.write name text (sys.open_write name w).1).0 ≡ true
      → (sys.read_stream name (sys.write name text (sys.open_write name w).1).1).0
        ≡ some (text, true)

  -- There is no file, or it holds the content.
  abbrev pub Written : Bytes → Bytes × W → Type 0
  Written content (file, w) =
      (is_empty file ≡ true) ⊎ ((sys.read_stream file w).0 ≡ some (content, true))

  module _ (writes : Writes) where
    write_content-Written :
        (file content : Bytes) (w : W)
        → (sys.open_write file w).0 ≡ true
        → Returns (Written content) (write_content sys file content (sys.open_write file w).1)
    unfolding write_content
    write_content-Written file content w opened =
        elim (Bool-cases (sys.write file content (sys.open_write file w).1).0) [
          | inl done_well ↦ rw done_well (inr (writes file content w opened done_well))
          | inr failed ↦ rw failed (inl refl)
        ]

    write_template-Written :
        (count i : ℕ) (stem content : Bytes) (w : W)
        → Returns (Written content) (write_template sys count i stem content w)
    unfolding write_template
    write_template-Written zero i stem content w = inl refl
    write_template-Written (suc count) i stem content w =
        let file = candidate sys stem i in
        let looked = (sys.open_read file w).1 in
        elim (Bool-cases (sys.open_read file w).0) [
          | inl exists ↦ rw exists (write_template-Written count (i + 1) stem content looked)
          | inr new ↦ elim (Bool-cases (sys.open_write file looked).0) [
            | inl opened ↦ rw (new, opened) (write_content-Written file content looked opened)
            | inr closed ↦
                rw (new, closed)
                  (write_template-Written count (i + 1) stem content (sys.open_write file looked).1)
          ]
        ]

    -- What the loop of writeFile returns: the empty text, or the name of a file that holds the
    -- content.
    pub write_file-Written :
        (dir fname : Bytes) (is_template : Bool) (content : Bytes) (w : W)
        → Returns (Written content) (write_file sys dir fname is_template content w)
    unfolding write_file
    write_file-Written dir fname true content w =
        write_template-Written max_count 0 (dir ++ (fname ++ (sys.now w).0)) content (sys.now w).1
    write_file-Written dir fname false content w =
        let file = dir ++ (fname ++ ((sys.now w).0 ++ (dir ++ fname))) in
        elim (Bool-cases (sys.open_write file (sys.now w).1).0) [
          | inl opened ↦ rw opened (write_content-Written file content (sys.now w).1 opened)
          | inr closed ↦ rw closed (inl refl)
        ]
