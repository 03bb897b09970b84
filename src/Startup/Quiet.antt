-- ===== src/Startup/Quiet.antt =====
-- What the start leaves as it is.
use kvnorcom.Prelude.{
  ℕ, ◌≡◌, refl, ◌∙◌, Bool, true, false, ◌&&◌, Bool-cases, inl, inr, Option, none, some, List, [],
  ◌∷◌, is_empty,
}
use kvnorcom.Prelude.Bytes.{Bytes, codes}
use kvnorcom.Outcome.{Returns, Returns-bind, Returns-map}
use kvnorcom.Config.{Config}
use kvnorcom.System.{System, Action, ◌>>=◌, call}
use kvnorcom.System.Conf.{Section}
use kvnorcom.Startup.{
  Directories, get_kv_servers, unless_exit, and_then, require, get_dir, checked_dir, on_exists,
  create_dir, check_dir, data2kvdir_of, tmpdir_of, logdir_of, Signal, sigterm, sigint, set_handler,
  set_sig_handlers, finish, synopdir_or_usage, start_in, ignored_before, start_with, start,
}

-- No call of the start changes what `seen` sees of the surroundings.
pub record IsQuiet {W V : Type 0} (sys : System W) (dirs : Directories W) (seen : W → V)
    : Type 0 where
  pub time : (w : W) → seen (sys.time w).1 ≡ seen w
  pub exists : (dir : Bytes) (w : W) → seen (dirs.exists dir w).1 ≡ seen w
  pub create_directories : (dir : Bytes) (w : W) → seen (dirs.create_directories dir w).1 ≡ seen w
  pub is_directory : (dir : Bytes) (w : W) → seen (dirs.is_directory dir w).1 ≡ seen w
  pub stat_directory : (dir : Bytes) (w : W) → seen (dirs.stat_directory dir w).1 ≡ seen w
  pub access : (dir : Bytes) (write : Bool) (w : W) → seen (dirs.access dir write w).1 ≡ seen w
  pub sigaction : (signal : Signal) (w : W) → seen (dirs.sigaction signal w).1 ≡ seen w

module _ {W V : Type 0} (seen : W → V) where
  -- The action returns, and what is seen is what it was.
  abbrev pub Keeps {ℓ} : {A : Type ℓ} → Action W A → Type 0
  Keeps m = (w : W) → Returns (λ p. seen p.1 ≡ seen w) (m w)

  abbrev Same {ℓ} : {A : Type ℓ} → W → A × W → Type 0
  Same w p = seen p.1 ≡ seen w

  pub Keeps-bind {ℓ κ} :
      {A : Type ℓ} {B : Type κ} (m : Action W A) (f : A → Action W B)
      → Keeps m
      → ((a : A) → Keeps (f a))
      → Keeps (m >>= f)
  Keeps-bind m f h k w =
      Returns-bind (Same w) (Same w) (m w) _ (h w)
        (λ p e. Returns-map (Same p.1) (Same w) (f p.0 p.1) (λ q e'. e' ∙ e) (k p.0 p.1))

  Keeps-unless_exit {ℓ κ} :
      {A : Type ℓ} {B : Type κ} (f : A → Action W (Option B)) (r : Option A)
      → ((a : A) → Keeps (f a))
      → Keeps (unless_exit f r)
  Keeps-unless_exit f none k w = refl
  Keeps-unless_exit f (some a) k w = k a w

  pub Keeps-and_then {ℓ κ} :
      {A : Type ℓ} {B : Type κ} (m : Action W (Option A)) (f : A → Action W (Option B))
      → Keeps m
      → ((a : A) → Keeps (f a))
      → Keeps (and_then m f)
  Keeps-and_then m f h k = Keeps-bind m _ h (λ r. Keeps-unless_exit f r k)

  pub Keeps-require :
      (test : W → Option Bool × W) → ((w : W) → seen (test w).1 ≡ seen w) → Keeps (require test)
  Keeps-require test h w = h w

  module _ (sys : System W) (dirs : Directories W) (trim : Bytes → Bytes)
      (quiet : IsQuiet sys dirs seen) where
    checked_dir-Keeps : (dir : Bytes) → Keeps (checked_dir sys dirs trim dir)
    unfolding checked_dir
    checked_dir-Keeps dir =
        Keeps-and_then (require (dirs.is_directory dir)) _
          (Keeps-require (dirs.is_directory dir) (quiet.is_directory dir)) (λ u w. refl)

    on_exists-Keeps : (dir : Bytes) (r : Option Bool) → Keeps (on_exists sys dirs trim dir r)
    unfolding on_exists
    on_exists-Keeps dir none w = refl
    on_exists-Keeps dir (some true) w = checked_dir-Keeps dir w
    on_exists-Keeps dir (some false) w =
        Keeps-and_then (call (dirs.create_directories dir)) _ (quiet.create_directories dir)
          (λ u. checked_dir-Keeps dir) w

    create_dir-Keeps : (dir : Bytes) → Keeps (create_dir sys dirs trim dir)
    unfolding create_dir
    create_dir-Keeps dir =
        Keeps-bind (call (dirs.exists dir)) _ (quiet.exists dir) (on_exists-Keeps dir)

    check_dir-Keeps : (dir : Bytes) (write : Bool) → Keeps (check_dir sys dirs trim dir write)
    unfolding check_dir
    check_dir-Keeps dir write =
        Keeps-and_then (require (dirs.stat_directory dir)) _
          (Keeps-require (dirs.stat_directory dir) (quiet.stat_directory dir))
          (λ u w. quiet.access dir write w)

    finish-Keeps : (c : Config) → Keeps (finish sys dirs trim c)
    unfolding finish set_sig_handlers set_handler
    finish-Keeps c =
        Keeps-and_then (set_sig_handlers sys dirs trim) _
          (Keeps-and_then (set_handler sys dirs trim sigterm) _ (quiet.sigaction sigterm)
            (λ u. quiet.sigaction sigint))
          (λ u w. refl)

    module _ (upper lower : Bytes → Bytes) where
      synopdir_or_usage-Keeps :
          (conf : Section) → Keeps (synopdir_or_usage sys dirs trim upper lower conf)
      unfolding synopdir_or_usage
      synopdir_or_usage-Keeps conf w =
          elim (Bool-cases (is_empty (get_dir sys dirs trim conf (codes "synopdir")))) [
            | inl unset ↦ rw unset refl
            | inr given ↦ rw given (check_dir-Keeps _ false w)
          ]

      start_in-Keeps :
          (conf : Section) (servers : List Bytes) (ignored : ℕ → Bool)
          → Keeps (start_in sys dirs trim upper lower conf servers ignored)
      unfolding start_in
      start_in-Keeps conf servers ignored =
          Keeps-and_then (create_dir sys dirs trim (data2kvdir_of sys dirs trim conf)) _
            (create_dir-Keeps _)
            (λ data2kvdir.
              Keeps-and_then (create_dir sys dirs trim (tmpdir_of sys dirs trim conf)) _
                (create_dir-Keeps _)
                (λ tmpdir.
                  Keeps-and_then (create_dir sys dirs trim (logdir_of sys dirs trim conf)) _
                    (create_dir-Keeps _)
                    (λ logdir.
                      Keeps-and_then (synopdir_or_usage sys dirs trim upper lower conf) _
                        (synopdir_or_usage-Keeps conf) (λ synopdir. finish-Keeps _))))

      ignored_before-Keeps :
          (conf : Section) → Keeps (ignored_before sys dirs trim upper lower conf)
      unfolding ignored_before
      ignored_before-Keeps conf w =
          elim (Bool-cases (conf.flag (codes "ignore_files_before_startup"))) [
            | inl ignore ↦ rw ignore (quiet.time w)
            | inr all ↦ rw all refl
          ]

      start_with-Keeps :
          (conf : Section) (servers : List Bytes)
          → Keeps (start_with sys dirs trim upper lower conf servers)
      unfolding start_with
      start_with-Keeps conf [] w = refl
      start_with-Keeps conf (s ∷ ss) w = elim (Bool-cases (is_empty s && is_empty ss)) [
        | inl unset ↦ rw unset refl
        | inr given ↦ rw given (
            Keeps-bind (ignored_before sys dirs trim upper lower conf) _ (ignored_before-Keeps conf)
              (start_in-Keeps conf ss) w)
      ]

      pub start-Keeps : (conf : Option Section) → Keeps (start sys dirs trim upper lower conf)
      unfolding start
      start-Keeps none w = refl
      start-Keeps (some conf) w = start_with-Keeps conf (get_kv_servers (some conf)) w
