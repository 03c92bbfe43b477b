-- ===== src/Wire/Close/Code.antt =====
-- Which codes of a close reason are valid.
use Prim.Native.String.{String}
use go_ring.Common.{[], ◌∷◌, Bytes}

-- The text of the JSON null.
abbrev pub null : Bytes
null = b'n' ∷ b'u' ∷ b'l' ∷ b'l' ∷ []
