-- ===== src/Format.antt =====
-- src/format.rs: the constants of the fixed header and the fixed footer trailer.
use qzt.Base.{ℕ, List, [], ◌∷◌}

-- b"QZT\0TXT1"
abbrev pub magic : List ℕ
magic = b'Q' ∷ b'Z' ∷ b'T' ∷ 0 ∷ b'T' ∷ b'X' ∷ b'T' ∷ b'1' ∷ []

-- b"QZTTAIL1"
abbrev pub trailer_magic : List ℕ
trailer_magic = b'Q' ∷ b'Z' ∷ b'T' ∷ b'T' ∷ b'A' ∷ b'I' ∷ b'L' ∷ b'1' ∷ []

abbrev pub major_version : ℕ
major_version = 0

abbrev pub minor_version : ℕ
minor_version = 1

abbrev pub header_len : ℕ
header_len = 128

abbrev pub footer_trailer_len : ℕ
footer_trailer_len = 64
