-- ===== src/System.antt =====
-- What the program calls of the operating system and of libkvhttp, on a state `W` of the
-- surroundings, and the sequencing of such calls.
pub mod File
pub mod Conf
pub mod Steps
use kvnorcom.Prelude.{ℕ, Bool, Option, List, []}
use kvnorcom.Prelude.Bytes.{Bytes}
use kvnorcom.Outcome.{Outcome, returns}
use kvnorcom.Outcome as Outcome
use File.{Stat}

-- kvalobs::datasource::EResult; a value that the program does not know has a number.
pub data ResultCode : Type 0 where
  ok not_saved error no_decoder decode_error : ResultCode
  unknown : ℕ → ResultCode

-- kvalobs::datasource::Result
pub record Result : Type 0 where
  pub res : ResultCode
  pub message : Bytes

-- What HttpSendData::newData comes to: a result, or an exception with its text.
pub data Answer : Type 0 where
  answers : Result → Answer
  throws : Bytes → Answer

pub record System (W : Type 0) : Type 0 where
  pub stat : Bytes → W → Option Stat × W
  -- miutil::file::copyfile
  pub copyfile : Bytes → Bytes → W → Bool × W
  pub unlink : Bytes → W → W
  -- An ifstream of a file: none if it does not open, else what it holds up to the end or up to an
  -- error, and whether the end was met.
  pub read_stream : Bytes → W → Option (Bytes × Bool) × W
  -- fopen for reading and for writing, and fwrite with fclose behind it.
  pub open_read : Bytes → W → Bool × W
  pub open_write : Bytes → W → Bool × W
  pub write : Bytes → Bytes → W → Bool × W
  -- dnmi::file::Dir: the entries of a directory that match a pattern.
  pub list_dir : Bytes → Bytes → W → Option (List Bytes) × W
  -- miTime::nowTime, printed as YYYYMMDDThhmmss.
  pub now : W → Bytes × W
  -- time and sleep, in seconds.
  pub time : W → ℕ × W
  pub sleep : ℕ → W → W
  -- Whether the signal handler has set sigTerm.
  pub shutdown : W → Bool × W
  -- HttpSendData: its own host, and newData to it or to the server named.
  pub host : Bytes
  pub new_data : Bytes → Bytes → W → Answer × W
  pub new_data_to : Bytes → Bytes → Bytes → W → Answer × W

-- A part of the program: it changes the surroundings and returns, faults or runs on.
abbrev pub Action {ℓ} : Type 0 → Type ℓ → Type ℓ
Action W A = W → Outcome (A × W)

infixl 5 ◌>>=◌
abbrev pub ◌>>=◌ {ℓ κ} :
    {W : Type 0} {A : Type ℓ} {B : Type κ} → Action W A → (A → Action W B) → Action W B
(m >>= f) w = Outcome.◌>>=◌ (m w) (λ p. f p.0 p.1)

abbrev pub done {ℓ} : {W : Type 0} {A : Type ℓ} → A → Action W A
done a w = returns (a, w)

-- A call that returns.
abbrev pub call {ℓ} : {W : Type 0} {A : Type ℓ} → (W → A × W) → Action W A
call f w = returns (f w)

abbrev pub command : {W : Type 0} → (W → W) → Action W (Unit {0})
command f w = returns (tt, f w)

-- A computation that does not look at the surroundings.
abbrev pub inside {ℓ} : {W : Type 0} {A : Type ℓ} → Outcome A → Action W A
inside m w = Outcome.◌>>=◌ m (λ a. returns (a, w))
