-- ===== src/Prelude/Errors.antt =====
-- Error texts: fmt.Errorf with a cause or a value at its end.
use Prim.Native.String.{String, ◌++◌}

unfoldable pub after_text : String → String → String
after_text text value = text ++ value

pub caused : String → String → String
caused what cause = after_text (after_text what ": ") cause
