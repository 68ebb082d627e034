-- ===== src/Client/Info/Darwin.antt =====
-- cmd/agent/sysinfo_darwin.go, over the output of the commands that it runs; an error of a command is
-- none.
use rmm.Base.{
  ℕ, ◌+◌, ◌*◌, List, [], ◌∷◌, ◌++◌, Bytes, codes, ◌==◌, if◌then◌else◌, length, take, drop, ◌&&◌,
  Option, none, some,
}
use rmm.Base.Int.{ℤ, pos, above, sub_int}
use rmm.Go.Strings.{has_prefix, trim_prefix, trim_suffix, trim_space, index, cut, lines, fields}
use rmm.Go.Strconv.{parse_uint, parse_int, atoi}
use rmm.Protocol.Message.{DisplayInfo}
use rmm.Client.Info.Displays.{collect_from, uint64}

unfoldable pub macos_version : Option Bytes → Bytes
macos_version none = codes "macOS"
macos_version (some out) = codes "macOS " ++ trim_space out

unfoldable pub sysctl_uint64 : Option Bytes → ℕ
sysctl_uint64 none = 0
sysctl_uint64 (some out) = (parse_uint (trim_space out)).value

unfoldable pub parse_vm_stat_value : Bytes → ℕ
parse_vm_stat_value line = elim (cut line (codes ":")) [
  | none ↦ 0
  | some (name, rest) ↦ (parse_uint (trim_space (trim_suffix (trim_space rest) (codes ".")))).value
]

-- The free and the inactive pages.
unfoldable pub vm_stat_lines : List Bytes → ℕ × ℕ → ℕ × ℕ
vm_stat_lines [] pages = pages
vm_stat_lines (line ∷ rest) (free, inactive) = vm_stat_lines rest (
    if has_prefix line (codes "Pages free:")
    then (parse_vm_stat_value line, inactive)
    else if has_prefix line (codes "Pages inactive:")
    then (free, parse_vm_stat_value line)
    else (free, inactive))

-- The page size of Apple Silicon where sysctl gives none.
unfoldable pub page_size : Option Bytes → ℕ
page_size out = let size = sysctl_uint64 out in if size == 0 then 16384 else size

unfoldable pub macos_memory : Option Bytes → Option Bytes → Option Bytes → ℕ × ℕ
macos_memory memsize pagesize none = (sysctl_uint64 memsize, 0)
macos_memory memsize pagesize (some out) =
    let (free, inactive) = vm_stat_lines (lines out) (0, 0) in
    (sysctl_uint64 memsize, uint64 (uint64 (free + inactive) * page_size pagesize))

-- From the part behind " x " on.
unfoldable pub resolution_of : Option ℤ → List Bytes → ℤ × ℤ
resolution_of w [] = (pos 0, pos 0)
resolution_of none (height ∷ rest) = (pos 0, pos 0)
resolution_of (some w) (height ∷ rest) = elim (atoi height) [
  | none ↦ (pos 0, pos 0)
  | some h ↦ (w, h)
]

unfoldable pub parse_resolution : Bytes → ℤ × ℤ
parse_resolution line =
    elim (cut (trim_space (trim_prefix line (codes "Resolution:"))) (codes " x ")) [
      | none ↦ (pos 0, pos 0)
      | some (width, rest) ↦ resolution_of (atoi (trim_space width)) (fields rest)
    ]

unfoldable pub profiler_line : Bytes → Option (ℤ × ℤ)
profiler_line line =
    let l = trim_space line in
    if has_prefix l (codes "Resolution:")
    then (let (w, h) = parse_resolution l in if above w 0 && above h 0 then some (w, h) else none)
    else none

unfoldable pub macos_displays : Option Bytes → List DisplayInfo
macos_displays none = []
macos_displays (some out) = collect_from profiler_line 1 (lines out)

unfoldable pub boot_time_to_uptime : ℤ → ℤ → ℤ
boot_time_to_uptime now boot_epoch = sub_int now boot_epoch

unfoldable pub macos_uptime : ℤ → Option Bytes → ℤ
macos_uptime now none = pos 0
macos_uptime now (some out) = elim (index out (codes "sec = ")) [
  | none ↦ pos 0
  | some idx ↦
      let s = drop (idx + length (codes "sec = ")) out in
      elim (index s (codes ",")) [
        | none ↦ pos 0
        | some comma ↦
            let boot_sec = parse_int (take comma s) in
            if boot_sec.is_ok then boot_time_to_uptime now boot_sec.value else pos 0
      ]
]
