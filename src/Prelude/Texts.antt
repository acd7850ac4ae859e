-- ===== src/Prelude/Texts.antt =====
-- Texts, joined.
use Prim.Native.String.{String, ◌++◌}

abbrev pub append_text : String → String → String
append_text a b = a ++ b
