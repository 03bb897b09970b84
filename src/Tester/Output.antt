-- ===== src/Tester/Output.antt =====
-- The output of the program.
use kvnorcom.Prelude.{◌++◌}
use kvnorcom.Prelude.Bytes.{Bytes}
use kvnorcom.System.{Action, command}

-- What has been written to std::cout and to std::cerr.
pub record Printed : Type 0 where
  pub cout : Bytes
  pub cerr : Bytes

abbrev pub to_cout : Bytes → Action Printed (Unit {0})
to_cout text = command (λ p. record p { cout = p.cout ++ text })

abbrev pub to_cerr : Bytes → Action Printed (Unit {0})
to_cerr text = command (λ p. record p { cerr = p.cerr ++ text })
