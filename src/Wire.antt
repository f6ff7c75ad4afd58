-- ===== src/Wire.antt =====
-- Packed structs on the wire (ddt.h, msg.h): a struct is the list of its fields, each so many bytes
-- wide, the most significant byte first. ntohs, ntohl and net2host64 give the number that a
-- field's bytes spell so, and htons, htonl and host2net64 its bytes.
pub mod Laws
use lyp_lyl.Prelude.{length, take, drop, ℕ, zero, suc, ◌+◌, ◌*◌, ◌/◌, ◌%◌, ◌^◌, List, [], ◌∷◌, ◌++◌}

-- The bytes of a number, and back.
unfoldable pub to_bytes : ℕ → ℕ → List ℕ
to_bytes zero v = []
to_bytes (suc w) v = (v / 256 ^ w % 256) ∷ to_bytes w v

unfoldable pub of_bytes : List ℕ → ℕ
of_bytes [] = 0
of_bytes (b ∷ bs) = b * 256 ^ length bs + of_bytes bs

-- The widths of a struct's fields.
abbrev pub Layout : Type 0
Layout = List ℕ

unfoldable pub size_of : Layout → ℕ
size_of [] = 0
size_of (w ∷ ws) = w + size_of ws

-- What a pointer to the struct shows of the bytes at it.
unfoldable pub read_fields : Layout → List ℕ → List ℕ
read_fields [] bs = []
read_fields (w ∷ ws) bs = of_bytes (take w bs) ∷ read_fields ws (drop w bs)

unfoldable pub write_fields : Layout → List ℕ → List ℕ
write_fields [] vs = []
write_fields (w ∷ ws) [] = []
write_fields (w ∷ ws) (v ∷ vs) = to_bytes w v ++ write_fields ws vs
