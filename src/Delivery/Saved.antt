-- ===== src/Delivery/Saved.antt =====
-- tryToSendSavedObservations and getFileList of src/CollectWmoReports.cc.
pub mod Names
pub mod Each
pub mod Resend
use kvnorcom.Prelude.{
  ℕ, ◌+◌, Bool, true, false, not, ◌&&◌, ◌||◌, none, some, List, [], ◌∷◌, ◌++◌, ◌==◌, take, drop,
  is_empty, if◌then◌else◌,
}
use kvnorcom.Prelude.Bytes.{Bytes, codes, equal, last_or}
use kvnorcom.Lines.{find_char}
use kvnorcom.Config.{Config}
use kvnorcom.System.{System, Action, ◌>>=◌, done, call, command}
use kvnorcom.System.File.{File, Stat, is_file}
use kvnorcom.Files.{read_file}
use kvnorcom.Delivery.{Delivery, send_message}

-- boost::replace_all( path, "//", "/" ): matches do not overlap.
unfoldable pub replace_slashes : Bytes → Bytes
replace_slashes [] = []
replace_slashes (c ∷ []) = c ∷ []
replace_slashes (c ∷ d ∷ cs) =
    let both = replace_slashes cs in
    let one = replace_slashes (d ∷ cs) in if c == b'/' && d == b'/' then b'/' ∷ both else c ∷ one

-- fixPath of src/App.cc.
unfoldable pub fix_path : Bytes → Bytes
unfolding replace_slashes
fix_path path =
    let p = replace_slashes path in if is_empty p || last_or 0 p == b'/' then p else p ++ b'/' ∷ []

module _ {W : Type 0} (sys : System W) where
  -- The loop of getFileList.
  list_files : (ℕ → Bool) → Bytes → List Bytes → Action W (List File)
  list_files ignored path [] = done []
  list_files ignored path (name ∷ names) =
      let rest : Action W (List File) = list_files ignored path names in
      let keep : Stat → Action W (List File) =
        λ st. (do fs ← rest; done (record { name = path ++ name; stat = st } ∷ fs)) in
      let looked_at : Action W (List File) = (do
        st ← call (sys.stat (path ++ name))
        elim st [
          | none ↦ rest
          | some s ↦
              if ignored s.mtime || not (is_file (record { name = path ++ name; stat = s }))
              then rest
              else keep s
        ]) in
      if equal name (codes "..") || equal name (codes ".") then rest else looked_at

  -- getFileList: the files; it returns false where there are none.
  unfoldable pub get_file_list : Config → Bytes → Bytes → Action W (List File)
  unfolding list_files fix_path
  get_file_list conf path pattern_text w =
      if is_empty path
      then done [] w
      else (do
        names ← call (sys.list_dir (fix_path path) pattern_text)
        elim names [ none ↦ done [] | some ns ↦ list_files conf.ignored (fix_path path) ns ])
          w

  -- The end of the loop's body of tryToSendSavedObservations: whether the loop goes on.
  unfoldable pub after_send : Bytes → Delivery → Action W Bool
  after_send name d = elim (d.delivered || not d.try_to_resend) [
    | true ↦ (do u ← command (sys.unlink name); done (d.delivered || d.kv_server_is_up))
    | false ↦ done d.kv_server_is_up
  ]

  -- A file of the right format: `i` is where its first line ends.
  send_content : Config → Bytes → Bytes → ℕ → Action W Bool
  unfolding after_send
  send_content conf name content i =
      if is_empty (take i content)
      then (do u ← command (sys.unlink name); done true)
      else if conf.test
      then done false
      else (do d ← send_message sys conf (drop (i + 1) content) (take i content); after_send name d)

  -- The body of the loop: whether it goes on.
  unfoldable pub send_saved : Config → Bytes → Action W Bool
  unfolding send_content
  send_saved conf name = do
    r ← read_file sys name
    elim r [
      | none ↦ done true
      | some content ↦ elim (find_char b'\n' content) [
        | none ↦ (do u ← command (sys.unlink name); done true)
        | some i ↦ send_content conf name content i
      ]
    ]

  send_saved_loop : Config → List File → Action W (Unit {0})
  unfolding send_saved
  send_saved_loop conf [] = done tt
  send_saved_loop conf (f ∷ fs) =
      let again : Action W (Unit {0}) = send_saved_loop conf fs in
      do
        stop ← call sys.shutdown
        elim stop [
          | true ↦ done tt
          | false ↦ (do on ← send_saved conf f.name; elim on [ true ↦ again | false ↦ done tt ])
        ]

  -- tryToSendSavedObservations
  unfoldable pub try_to_send_saved : Config → Action W (Unit {0})
  unfolding send_saved_loop get_file_list
  try_to_send_saved conf = do
    fs ← get_file_list conf conf.data2kvdir (codes "kvdata_*")
    send_saved_loop conf fs
