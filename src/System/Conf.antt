-- ===== src/System/Conf.antt =====
-- The configuration, as libmiconfparser gives it.
use kvnorcom.Prelude.{Bool, List}
use kvnorcom.Prelude.Bytes.{Bytes}

-- miutil::conf::ConfSection: the texts of the values of a key, the text of its value or a default,
-- and its value as a Boolean, which is false by default.
pub record Section : Type 0 where
  pub values : Bytes → List Bytes
  pub text : Bytes → Bytes → Bytes
  pub flag : Bytes → Bool
