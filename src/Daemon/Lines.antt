-- ===== src/Daemon/Lines.antt =====
-- The lines of the states that the daemons publish.
use orca_cde.Prelude.{◌∷◌, [], ◌++◌, Bytes}

-- `fprintf(stream, "<key>=%s\n", value)`
abbrev pub line : Bytes → Bytes → Bytes
line key value = key ++ (b'=' ∷ value ++ (b'\n' ∷ []))
