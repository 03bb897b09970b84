-- ===== src/Startup/Places.antt =====
-- The directories that the program works in.
use kvnorcom.Prelude.{
  ℕ, ◌≡◌, refl, Bool, true, false, ◌&&◌, ◌||◌, ◌==◌, ltb, Bool-cases, inl, inr, Option, none, some,
  List, [], ◌∷◌, is_empty, is_empty-append, arith,
}
use kvnorcom.Prelude.Bytes.{Bytes, codes, last_or, last_or-append}
use kvnorcom.Outcome.{Returns, Returns-bind}
use kvnorcom.Config.{Config}
use kvnorcom.System.{System, Action}
use kvnorcom.Delivery.Saved.{fix_path, replace_slashes}
use kvnorcom.Delivery.Saved.Names.{fix_path-is_empty, append-is_empty}
use kvnorcom.System.Conf.{Section}
use kvnorcom.Startup.{
  Directories, get_kv_servers, unless_exit, and_then, get_dir, create_dir, check_dir, workdir_of,
  data2kvdir_of, tmpdir_of, logdir_of, set_handler, set_sig_handlers, finish, members,
  synopdir_or_usage, start_in, ignored_before, start_with, start,
}

-- A path to which the name of a file can be appended.
abbrev pub IsDirectory : Bytes → Type 0
IsDirectory path = (is_empty path ≡ false) × (last_or 0 path ≡ b'/')

abbrev pub IsRooted : Bytes → Type 0
IsRooted path = is_empty path || last_or 0 path == b'/' ≡ true

IsRooted-fix_path : (path : Bytes) → IsRooted (fix_path path)
unfolding fix_path
IsRooted-fix_path path = ground (arith, last_or-append 0 (replace_slashes path) (codes "/"))

IsDirectory-fix_path : (path : Bytes) → is_empty path ≡ false → IsDirectory (fix_path path)
IsDirectory-fix_path path h =
    let e = fix_path-is_empty path h in (e, ground (arith, e, IsRooted-fix_path path))

-- The program has not exited, and `P` holds; or it has.
abbrev pub OrExit {ℓ} : {W : Type 0} {A : Type ℓ} → (A → Type 0) → Option A × W → Type 0
OrExit P (none, w) = Unit
OrExit P (some a, w) = P a

over_exit {ℓ κ} :
    {W : Type 0} {A : Type ℓ} {B : Type κ} (P : A → Type 0) (Q : B → Type 0)
    (f : A → Action W (Option B)) (r : Option A) (w : W)
    → OrExit P (r, w)
    → ((a : A) (v : W) → P a → Returns (OrExit Q) (f a v))
    → Returns (OrExit Q) (unless_exit f r w)
over_exit P Q f none w h k = tt
over_exit P Q f (some a) w h k = k a w h

Returns-and_then {ℓ κ} :
    {W : Type 0} {A : Type ℓ} {B : Type κ} (P : A → Type 0) (Q : B → Type 0)
    (m : Action W (Option A)) (f : A → Action W (Option B)) (w : W)
    → Returns (OrExit P) (m w)
    → ((a : A) (v : W) → P a → Returns (OrExit Q) (f a v))
    → Returns (OrExit Q) (and_then m f w)
Returns-and_then P Q m f w h k =
    Returns-bind (OrExit P) (OrExit Q) (m w) _ h (λ p h'. over_exit P Q f p.0 p.1 h' k)

-- The directories of the sources, of the messages to send and of the copies have names that end in
-- a '/'; those of the work and of the log are empty or end in one; and test mode is off.
abbrev pub IsPlaced : Config → Type 0
IsPlaced c =
    IsDirectory c.synopdir
    × IsDirectory c.data2kvdir
    × IsDirectory c.tmpdir
    × IsRooted c.workdir
    × IsRooted c.logdir
    × (c.test ≡ false)

module _ {W : Type 0} (sys : System W) (dirs : Directories W) (trim : Bytes → Bytes) where
  create_dir-fix_path :
      (dir : Bytes) (w : W)
      → Returns (OrExit (λ (d : Bytes). d ≡ fix_path dir)) (create_dir sys dirs trim dir w)
  unfolding create_dir
  create_dir-fix_path dir w = ground arith

  check_dir-IsDirectory :
      (dir : Bytes) (rwaccess : Bool) (w : W)
      → is_empty dir ≡ false
      → Returns (OrExit IsDirectory) (check_dir sys dirs trim dir rwaccess w)
  unfolding check_dir
  check_dir-IsDirectory dir rwaccess w h =
      ground (arith, h, append-is_empty dir (codes "/") h, last_or-append 0 dir (codes "/"))

  data2kvdir_of-is_empty : (conf : Section) → is_empty (data2kvdir_of sys dirs trim conf) ≡ false
  unfolding data2kvdir_of
  data2kvdir_of-is_empty conf =
      fix_path-is_empty _ (is_empty-append (workdir_of sys dirs trim conf) (codes "data2kv/") b'/')

  tmpdir_of-is_empty : (conf : Section) → is_empty (tmpdir_of sys dirs trim conf) ≡ false
  unfolding tmpdir_of
  tmpdir_of-is_empty conf =
      fix_path-is_empty _ (is_empty-append (data2kvdir_of sys dirs trim conf) (codes "tmp/") b'/')

  finish-IsPlaced :
      (c : Config) (w : W) → IsPlaced c → Returns (OrExit IsPlaced) (finish sys dirs trim c w)
  unfolding finish set_sig_handlers set_handler
  finish-IsPlaced c w h = ground (arith, h)

  module _ (upper lower : Bytes → Bytes) where
    synopdir_or_usage-IsDirectory :
        (conf : Section) (w : W)
        → Returns (OrExit IsDirectory) (synopdir_or_usage sys dirs trim upper lower conf w)
    unfolding synopdir_or_usage
    synopdir_or_usage-IsDirectory conf w =
        elim (Bool-cases (is_empty (get_dir sys dirs trim conf (codes "synopdir")))) [
          | inl unset ↦ rw unset tt
          | inr given ↦ rw given (check_dir-IsDirectory _ false w given)
        ]

    members-IsPlaced :
        (conf : Section) (servers : List Bytes) (ignored : ℕ → Bool) (synopdir : Bytes)
        → IsDirectory synopdir
        → IsPlaced (
            members sys dirs trim upper lower conf servers ignored
              (fix_path (data2kvdir_of sys dirs trim conf))
              (fix_path (tmpdir_of sys dirs trim conf))
              (fix_path (logdir_of sys dirs trim conf))
              synopdir)
    unfolding members workdir_of
    members-IsPlaced conf servers ignored synopdir h = (
      h,
      IsDirectory-fix_path _ (data2kvdir_of-is_empty conf),
      IsDirectory-fix_path _ (tmpdir_of-is_empty conf),
      IsRooted-fix_path _,
      IsRooted-fix_path _,
      refl,
    )

    start_in-IsPlaced :
        (conf : Section) (servers : List Bytes) (ignored : ℕ → Bool) (w : W)
        → Returns (OrExit IsPlaced) (start_in sys dirs trim upper lower conf servers ignored w)
    unfolding start_in
    start_in-IsPlaced conf servers ignored w =
        let made : (dir : Bytes) (v : W)
            → Returns (OrExit (λ (d : Bytes). d ≡ fix_path dir)) (create_dir sys dirs trim dir v) =
          create_dir-fix_path in
        Returns-and_then _ IsPlaced (create_dir sys dirs trim (data2kvdir_of sys dirs trim conf)) _
          w (made (data2kvdir_of sys dirs trim conf) w)
          (λ data2kvdir v p.
            Returns-and_then _ IsPlaced (create_dir sys dirs trim (tmpdir_of sys dirs trim conf)) _
              v (made (tmpdir_of sys dirs trim conf) v)
              (λ tmpdir v p'.
                Returns-and_then _ IsPlaced
                  (create_dir sys dirs trim (logdir_of sys dirs trim conf)) _ v
                  (made (logdir_of sys dirs trim conf) v)
                  (λ logdir v p''.
                    Returns-and_then IsDirectory IsPlaced
                      (synopdir_or_usage sys dirs trim upper lower conf) _ v
                      (synopdir_or_usage-IsDirectory conf v)
                      (λ synopdir v s.
                        finish-IsPlaced _ v
                          (rw (p, p', p'') (members-IsPlaced conf servers ignored synopdir s))))))

    start_with-IsPlaced :
        (conf : Section) (servers : List Bytes) (w : W)
        → Returns (OrExit IsPlaced) (start_with sys dirs trim upper lower conf servers w)
    unfolding start_with ignored_before
    start_with-IsPlaced conf [] w = tt
    start_with-IsPlaced conf (s ∷ ss) w = elim (Bool-cases (is_empty s && is_empty ss)) [
      | inl unset ↦ rw unset tt
      | inr given ↦ rw given (elim (Bool-cases (conf.flag (codes "ignore_files_before_startup"))) [
        | inl ignore ↦
            rw ignore (start_in-IsPlaced conf ss (λ t. ltb t (sys.time w).0) (sys.time w).1)
        | inr all ↦ rw all (start_in-IsPlaced conf ss (λ t. false) w)
      ])
    ]

    -- The constructor of App exits or builds an object, whatever the configuration holds and the
    -- system answers. In an object that it builds, the directories of the sources, of the messages to
    -- send and of the copies have names that end in a '/', those of the work and of the log are empty
    -- or end in one, and test mode is off, whatever the arguments are.
    pub start-IsPlaced :
        (conf : Option Section) (w : W)
        → Returns (OrExit IsPlaced) (start sys dirs trim upper lower conf w)
    unfolding start
    start-IsPlaced none w = tt
    start-IsPlaced (some conf) w = start_with-IsPlaced conf (get_kv_servers (some conf)) w
