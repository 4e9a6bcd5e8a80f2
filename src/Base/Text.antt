-- ===== src/Base/Text.antt =====
-- Letters, as strings.ToLower and strings.EqualFold read them in a text of ASCII letters.
use incus.Base.{ℕ, ◌+◌, ◌&&◌, leb, if◌then◌else◌}

abbrev pub lower : ℕ → ℕ
lower c = if leb b'A' c && leb c b'Z' then c + 32 else c
