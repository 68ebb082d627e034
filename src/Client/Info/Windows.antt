-- ===== src/Client/Info/Windows.antt =====
-- cmd/agent/sysinfo_windows.go, over the output of PowerShell; an error of the command is none.
use rmm.Base.{ℕ, ◌*◌, List, [], ◌∷◌, Bytes, codes, text_eq, if◌then◌else◌, ◌||◌, Option, none, some}
use rmm.Base.Int.{ℤ, pos, eq_ℕ}
use rmm.Go.Strings.{trim_space, lines, fields}
use rmm.Go.Strconv.{parse_uint, parse_int, atoi}
use rmm.Protocol.Message.{DisplayInfo}
use rmm.Client.Info.Displays.{collect_from, uint64}

unfoldable pub windows_os_version : Option Bytes → Bytes
windows_os_version none = codes "Windows"
windows_os_version (some out) =
    let v = trim_space out in if text_eq v [] then codes "Windows" else v

-- The first two numbers of a line, each with its factor.
unfoldable pub two_numbers : ℕ → List Bytes → ℕ × ℕ
two_numbers factor [] = (0, 0)
two_numbers factor (total ∷ []) = (0, 0)
two_numbers factor (total ∷ (free ∷ rest)) =
    (uint64 ((parse_uint total).value * factor), uint64 ((parse_uint free).value * factor))

unfoldable pub windows_memory : Option Bytes → ℕ × ℕ
windows_memory none = (0, 0)
windows_memory (some out) = two_numbers 1024 (fields (trim_space out))

-- The factor 1 leaves the number as it was parsed.
unfoldable pub windows_disk : Option Bytes → ℕ × ℕ
windows_disk none = (0, 0)
windows_disk (some out) = two_numbers 1 (fields (trim_space out))

unfoldable pub video_fields : List Bytes → Option (ℤ × ℤ)
video_fields [] = none
video_fields (width ∷ []) = none
video_fields (width ∷ (height ∷ rest)) = elim (atoi width) [
  | none ↦ none
  | some w ↦ elim (atoi height) [
    | none ↦ none
    | some h ↦ if eq_ℕ w 0 || eq_ℕ h 0 then none else some (w, h)
  ]
]

unfoldable pub video_line : Bytes → Option (ℤ × ℤ)
video_line line = video_fields (fields (trim_space line))

unfoldable pub windows_displays : Option Bytes → List DisplayInfo
windows_displays none = []
windows_displays (some out) = collect_from video_line 1 (lines (trim_space out))

unfoldable pub windows_uptime : Option Bytes → ℤ
windows_uptime none = pos 0
windows_uptime (some out) = (parse_int (trim_space out)).value
