-- ===== src/Client/Info/Displays.antt =====
-- cmd/agent/sysinfo_linux.go, sysinfo_darwin.go, sysinfo_windows.go: the loop over lines that appends a
-- display for each line which gives a width and a height, with the next index.
use rmm.Base.{ℕ, suc, ◌%◌, ◌^◌, List, [], ◌∷◌, Bytes, Option, none, some}
use rmm.Base.Int.{ℤ, pos}
use rmm.Protocol.Message.{DisplayInfo}

unfoldable pub collect_from : (Bytes → Option (ℤ × ℤ)) → ℕ → List Bytes → List DisplayInfo
collect_from parse idx [] = []
collect_from parse idx (line ∷ rest) = elim (parse line) [
  | none ↦ collect_from parse idx rest
  | some (w, h) ↦
      record { index = pos idx; width = w; height = h } ∷ collect_from parse (suc idx) rest
]

-- The product of two 64-bit numbers.
abbrev pub uint64 : ℕ → ℕ
uint64 n = n % 2 ^ 64
