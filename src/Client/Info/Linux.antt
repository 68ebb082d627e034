-- ===== src/Client/Info/Linux.antt =====
-- cmd/agent/sysinfo_linux.go, over the files and the command output that it reads; an error of the read
-- is none.
use rmm.Base.{
  ℕ, ◌+◌, ◌-◌, ◌*◌, List, [], ◌∷◌, Bytes, codes, ltb, leb, text_eq, if◌then◌else◌, take, drop, not,
  ◌||◌, Option, none, some,
}
use rmm.Base.Int.{ℤ, pos}
use rmm.Go.Strings.{has_prefix, trim_prefix, trim_byte, index, contains, lines, fields}
use rmm.Go.Strconv.{parse_uint, atoi}
use rmm.Protocol.Message.{DisplayInfo}
use rmm.Client.Info.Displays.{collect_from, uint64}

unfoldable pub pretty_name : List Bytes → Bytes
pretty_name [] = codes "Linux"
pretty_name (line ∷ rest) =
    if has_prefix line (codes "PRETTY_NAME=")
    then trim_byte b'"' (trim_prefix line (codes "PRETTY_NAME="))
    else pretty_name rest

unfoldable pub linux_os_version : Option Bytes → Bytes
linux_os_version none = codes "Linux"
linux_os_version (some text) = pretty_name (lines text)

-- One line of /proc/meminfo, on (total, free).
unfoldable pub meminfo_fields : List Bytes → ℕ × ℕ → ℕ × ℕ
meminfo_fields [] m = m
meminfo_fields (name ∷ []) m = m
meminfo_fields (name ∷ (value ∷ rest)) (total, free) =
    let val = uint64 ((parse_uint value).value * 1024) in
    if text_eq name (codes "MemTotal:")
    then (val, free)
    else if text_eq name (codes "MemAvailable:")
    then (total, val)
    else (total, free)

unfoldable pub meminfo_lines : List Bytes → ℕ × ℕ → ℕ × ℕ
meminfo_lines [] m = m
meminfo_lines (line ∷ rest) m = meminfo_lines rest (meminfo_fields (fields line) m)

unfoldable pub linux_memory : Option Bytes → ℕ × ℕ
linux_memory none = (0, 0)
linux_memory (some text) = meminfo_lines (lines text) (0, 0)

-- The width and the height of "WxH+X+Y"; `none` is false.
unfoldable pub parse_xrandr_res : Bytes → Option (ℤ × ℤ)
parse_xrandr_res s = elim (index s (codes "x")) [
  | none ↦ none
  | some x ↦ elim (index s (codes "+")) [
    | none ↦ none
    | some p ↦ if ltb x 1 || (ltb p 1 || leb p x) then none else elim (atoi (take x s)) [
      | none ↦ none
      | some w ↦ elim (atoi (take (p - (x + 1)) (drop (x + 1) s))) [
        | none ↦ none
        | some h ↦ some (w, h)
      ]
    ]
  ]
]

unfoldable pub first_geometry : List Bytes → Option (ℤ × ℤ)
first_geometry [] = none
first_geometry (f ∷ rest) = elim (parse_xrandr_res f) [
  | none ↦ first_geometry rest
  | some size ↦ some size
]

unfoldable pub xrandr_line : Bytes → Option (ℤ × ℤ)
xrandr_line line =
    if not (contains line (codes " connected")) then none else first_geometry (fields line)

unfoldable pub linux_displays : Option Bytes → List DisplayInfo
linux_displays none = []
linux_displays (some out) = collect_from xrandr_line 1 (lines out)

-- `parse_seconds` is ParseFloat and the conversion to int64.
unfoldable pub linux_uptime : (Bytes → Option ℤ) → Option Bytes → ℤ
linux_uptime parse_seconds none = pos 0
linux_uptime parse_seconds (some text) = elim (fields text) [
  | [] ↦ pos 0
  | first ∷ rest ↦ elim (parse_seconds first) [ none ↦ pos 0 | some seconds ↦ seconds ]
]
