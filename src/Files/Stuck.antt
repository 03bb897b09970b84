-- ===== src/Files/Stuck.antt =====
-- An entry whose copy cannot be read, over the polls that follow.
use kvnorcom.Prelude.{
  ◌≡◌, refl, true, false, Option, none, some, List, [], ◌∷◌, ◌++◌, ap, ==_iff, arith,
}
use kvnorcom.Prelude.Bytes.{Bytes}
use kvnorcom.Outcome.{returns, Returns, Returns-bind}
use kvnorcom.System.{System, Action, ◌>>=◌, done, command}
use kvnorcom.System.File.{File, file_mtime}
use kvnorcom.Files.{FInfo, to_be_collected, check_entry, collect_entry, read_file}

module _ {W : Type 0} (sys : System W) (tmpdir : Bytes) (f : File) where
  -- The body of collectObservations' loop over the list, for one entry.
  collect_if_due : FInfo → Action W (FInfo × Bytes)
  collect_if_due fi = elim (to_be_collected fi) [
    | false ↦ done (fi, [])
    | true ↦ collect_entry sys false fi
  ]

  -- A poll that finds the file `f`, and the collection behind it: the entry, if it is still there,
  -- and what has been handed on.
  on_checked : Option FInfo → Action W (Option FInfo × Bytes)
  unfolding collect_if_due
  on_checked none = done (none, [])
  on_checked (some fi) = do p ← collect_if_due fi; done (some p.0, p.1)

  poll_entry : Option FInfo → Action W (Option FInfo × Bytes)
  unfolding on_checked
  poll_entry none = done (none, [])
  poll_entry (some fi) = do r ← check_entry sys false tmpdir f fi; on_checked r

  -- Such polls one behind the other; in front of each the surroundings change.
  unfoldable pub polls : List (W → W) → Option FInfo → Action W (Option FInfo × Bytes)
  unfolding poll_entry
  polls [] r = done (r, [])
  polls (change ∷ changes) r =
      let again : Option FInfo → Action W (Option FInfo × Bytes) = λ e. polls changes e in
      do u ← command change; p ← poll_entry r; q ← again p.0; done (q.0, p.1 ++ q.1)

  -- A collection, and polls behind it.
  unfoldable pub collect_and_poll : List (W → W) → FInfo → Action W (Option FInfo × Bytes)
  unfolding polls
  collect_and_poll changes fi = do
    p ← collect_entry sys false fi
    q ← polls changes (some p.0)
    done (q.0, p.1 ++ q.1)

  -- A file that is missing cannot be opened, and neither the attempt nor its removal brings it back.
  pub record IsMissing (name : Bytes) (missing : W → Type 0) : Type 0 where
    pub unreadable : (w : W) → missing w → (sys.read_stream name w).0 ≡ none
    pub read : (w : W) → missing w → missing (sys.read_stream name w).1
    pub removed : (w : W) → missing w → missing (sys.unlink name w)

  abbrev pub AllKeep : (W → Type 0) → List (W → W) → Type 0
  AllKeep missing [] = Unit
  AllKeep missing (change ∷ changes) =
      ((w : W) → missing w → missing (change w)) × AllKeep missing changes

  -- The entry that a failed collection leaves.
  abbrev pub unseen : FInfo → FInfo
  unseen fi = record fi { seen = false; collected = false }

  restored : (fi : FInfo) → to_be_collected fi ≡ true → record (unseen fi) { seen = true } ≡ fi
  restored fi h = ground arith

  collect_entry-unreadable :
      (fi : FInfo) (w : W)
      → (sys.read_stream fi.fcopy w).0 ≡ none
      → collect_entry sys false fi w
        ≡ returns ((unseen fi, []), sys.unlink fi.fcopy (sys.read_stream fi.fcopy w).1)
  unfolding collect_entry read_file
  collect_entry-unreadable fi w e = rw (collect_entry, e) refl

  check_entry-unseen :
      (fi : FInfo) (w : W)
      → to_be_collected fi ≡ true
      → fi.mtime ≡ file_mtime f
      → check_entry sys false tmpdir f (unseen fi) w ≡ returns (some fi, w)
  unfolding check_entry
  check_entry-unseen fi w h t =
      rw (check_entry, (==_iff fi.mtime (file_mtime f)).1 t)
        (ap (λ (g : FInfo). returns (some g, w)) (restored fi h))

  abbrev Stays : FInfo → (W → Type 0) → (Option FInfo × Bytes) × W → Type 0
  Stays fi missing (p, w) = (p ≡ (some (unseen fi), [])) × missing w

  on_checked-unreadable :
      (fi : FInfo) (w : W)
      → to_be_collected fi ≡ true
      → (sys.read_stream fi.fcopy w).0 ≡ none
      → on_checked (some fi) w
        ≡ returns ((some (unseen fi), []), sys.unlink fi.fcopy (sys.read_stream fi.fcopy w).1)
  unfolding on_checked collect_if_due
  on_checked-unreadable fi w h e =
      rw (on_checked, collect_if_due, h, collect_entry-unreadable fi w e) refl

  polls-Stays :
      (missing : W → Type 0) (fi : FInfo) (changes : List (W → W)) (w : W)
      → IsMissing fi.fcopy missing
      → AllKeep missing changes
      → to_be_collected fi ≡ true
      → fi.mtime ≡ file_mtime f
      → missing w
      → Returns (Stays fi missing) (polls changes (some (unseen fi)) w)
  unfolding polls
  polls-Stays missing fi [] w is keep h t m = (refl, m)
  polls-Stays missing fi (change ∷ changes) w is (keeps, keep) h t m =
      let after = sys.unlink fi.fcopy (sys.read_stream fi.fcopy (change w)).1 in
      let gone = is.removed _ (is.read _ (keeps w m)) in
      rw
        (
          check_entry-unseen fi (change w) h t,
          on_checked-unreadable fi (change w) h (is.unreadable _ (keeps w m)),
        )
        (Returns-bind (Stays fi missing) (Stays fi missing) (polls changes (some (unseen fi)) after)
          _ (polls-Stays missing fi changes after is keep h t gone)
          (λ (q, v) (e, m'). (ap (λ (x : Option FInfo × Bytes). (x.0, [] ++ x.1)) e, m')))

  -- App::debug is off. An entry is to be collected, and its copy cannot be read; behind its removal it is missing, as it
  -- then is for good. The polls that follow find the file `f` as the entry has it, and the
  -- surroundings change in front of each as they like, but for what is missing. However many polls
  -- follow, the file is never collected: the collection and the polls return, hand nothing on, and
  -- leave the entry waiting to be seen, with the name of that copy and the record of what has been
  -- sent as they were.
  pub collect_and_poll-stuck :
      (missing : W → Type 0) (fi : FInfo) (changes : List (W → W)) (w : W)
      → IsMissing fi.fcopy missing
      → AllKeep missing changes
      → to_be_collected fi ≡ true
      → fi.mtime ≡ file_mtime f
      → (sys.read_stream fi.fcopy w).0 ≡ none
      → missing (sys.unlink fi.fcopy (sys.read_stream fi.fcopy w).1)
      → Returns
          (λ (p : (Option FInfo × Bytes) × W). p.0 ≡ (some (unseen fi), []))
          (collect_and_poll changes fi w)
  unfolding collect_and_poll
  collect_and_poll-stuck missing fi changes w is keep h t e m =
      let after = sys.unlink fi.fcopy (sys.read_stream fi.fcopy w).1 in
      rw (collect_entry-unreadable fi w e) (
        Returns-bind (Stays fi missing)
          (λ (p : (Option FInfo × Bytes) × W). p.0 ≡ (some (unseen fi), []))
          (polls changes (some (unseen fi)) after) _
          (polls-Stays missing fi changes after is keep h t m)
          (λ (q, v) (same, m'). ap (λ (x : Option FInfo × Bytes). (x.0, [] ++ x.1)) same))
