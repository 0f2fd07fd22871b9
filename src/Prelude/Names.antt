-- ===== src/Prelude/Names.antt =====
-- Texts that the program only compares: the names of phases.
use Prim.Native.String.{String}
use text.Mathlib.Text.{◌==◌}
use mathlib.Core.Bool.{Bool}

abbrev pub same_name : String → String → Bool
same_name s t = s == t
