-- ===== src/System/File.antt =====
-- Class File of src/File.h and .cc.
use kvnorcom.Prelude.{
  ℕ, suc, ◌+◌, Bool, false, not, Option, none, some, [], ◌∷◌, ◌==◌, take, drop, is_empty,
  if◌then◌else◌,
}
use kvnorcom.Prelude.Bytes.{Bytes}

-- The members of struct stat that the program looks at; times are seconds since 1970.
pub record Stat : Type 0 where
  pub mtime : ℕ
  pub regular : Bool

pub record File : Type 0 where
  pub name : Bytes
  pub stat : Stat

-- File::ok
abbrev pub file_ok : File → Bool
file_ok f = not (is_empty f.name)

-- File::mtime
abbrev pub file_mtime : File → ℕ
file_mtime f = if is_empty f.name then 0 else f.stat.mtime

-- File::isFile: S_ISREG of File::mode.
abbrev pub is_file : File → Bool
is_file f = if is_empty f.name then false else f.stat.regular

-- name_.find_last_of( "/" )
unfoldable pub last_slash : Bytes → Option ℕ
last_slash [] = none
last_slash (c ∷ cs) = elim (last_slash cs) [
  | some i ↦ some (suc i)
  | none ↦ if c == b'/' then some 0 else none
]

-- File::basepart
unfoldable pub base_part : Bytes → Bytes
unfolding last_slash
base_part name = elim (last_slash name) [ none ↦ [] | some i ↦ take i name ]

-- File::namepart
unfoldable pub name_part : Bytes → Bytes
unfolding last_slash
name_part name = elim (last_slash name) [ none ↦ name | some i ↦ drop (i + 1) name ]
