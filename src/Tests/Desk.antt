-- ===== src/Tests/Desk.antt =====
-- An agent on each platform: its input, its captures and what it reports.
use rmm.Base.{
  refl, [], ◌∷◌, ◌++◌, Bytes, codes, ◌≡◌, text_eq, ◌*◌, List, length, true, false, Option, none,
  some, arith, inl,
}
use rmm.Base.Int.{pos}
use rmm.Go.Strings.{
  lines, split, onto_first, trim_space, trim_left, has_prefix, trim_prefix, contains, cut, index,
  fields, fields_from,
}
use rmm.Go.Strings.Laws.{Has}
use rmm.Go.Strconv.{
  format_uint, format_int, digits, atoi, parse_int, parse_uint, parse_digits, signed,
}
use rmm.Protocol.Message.{DisplayInfo}
use rmm.Client.State.{System, Agent, Injection, mouse, key, new_agent}
use rmm.Client.Capture.{handle_switch_display}
use rmm.Client.Input.{
  darwin, linux, windows, new_injector, inject, inject_all, powershell, inject_mouse_linux,
  inject_key_linux, look_for, run_commands, xdotool_commands, xdo_key,
}
use rmm.Client.Input.Runs.{linux_commands, inject_all-linux_commands, breaking, breaking-Has}
use rmm.Client.Screen.{get_display_count}
use rmm.Client.Screen.Pattern.{test_pattern}
use rmm.Client.Screen.PatternBounds.{Draws, test_pattern-Draws}
use rmm.Client.Info.{Host, on_linux, collect_system_info}
use rmm.Client.Info.Linux.{linux_displays, parse_xrandr_res, xrandr_line, first_geometry}
use rmm.Client.Info.Displays.{collect_from}
use rmm.Client.Info.Darwin.{macos_displays, profiler_line, parse_resolution, resolution_of}
use rmm.Client.Info.Numbering.{IsNumbered, collect_system_info-IsNumbered}
use rmm.Client.Info.Geometry.{parse_xrandr_res-format_uint}
use rmm.Client.Info.Switching.{linux_displays-handle_switch_display}
use rmm.Tests.Samples.{decode_message, registration_of}

abbrev session : List Injection
session =
    key (codes "a") (pos 65)
    ∷ mouse (codes "move") (pos 10) (pos 20) (pos 0)
    ∷ key (codes "Enter") (pos 13)
    ∷ []

inject_all-linux_commands_example :
    (inject_all linux true session new_injector).ran ≡ linux_commands false session
inject_all-linux_commands_example = inject_all-linux_commands true session

-- The key before the mouse is lost.
session_runs :
    (inject_all linux true session new_injector).ran
    ≡ record { program = codes "xdotool"; args = codes "mousemove" ∷ codes "10" ∷ codes "20" ∷ [] }
      ∷ record { program = codes "xdotool"; args = codes "key" ∷ codes "Return" ∷ [] }
      ∷ []
unfolding new_injector inject_all inject inject_mouse_linux inject_key_linux look_for run_commands
    xdotool_commands xdo_key text_eq format_int format_uint digits
session_runs = refl

breaking-Has_example :
    (script : Bytes) × ((inject windows true
        (key (breaking (codes "calc.exe")) (pos 0))
        new_injector).ran
      ≡ new_injector.ran ++ (powershell script ∷ []))
    × Has (codes "calc.exe") (lines script)
breaking-Has_example = breaking-Has (codes "calc.exe") (pos 0) true new_injector (ground arith)

test_pattern-Draws_example : Draws (4 * (800 * 600)) (test_pattern 800 600 30)
test_pattern-Draws_example = test_pattern-Draws 800 600 30

abbrev xrandr : Option Bytes
xrandr = some (
    codes
      "Screen 0: minimum 320 x 200\nDP-1 connected primary 2560x1440+0+0 (normal)\nDP-2 disconnected\nHDMI-1 connected 1920x1080+2560+0\n")

abbrev desk : Host
desk = record {
  hostname = some (codes "desk");
  goos = codes "linux";
  goarch = codes "amd64";
  num_cpu = 8;
  version = codes "1.0";
  platform =
      on_linux none (some (codes "MemTotal:       16000 kB\nMemAvailable: 8000 kB\n")) none xrandr
        none (λ text. some (pos 60));
  interfaces = none;
  username = none;
}

collect_system_info-IsNumbered_example : IsNumbered (collect_system_info desk [])
collect_system_info-IsNumbered_example = collect_system_info-IsNumbered desk []

parse_xrandr_res-format_uint_example :
    parse_xrandr_res (format_uint 2560 ++ (b'x' ∷ (format_uint 1440 ++ (b'+' ∷ codes "0+0"))))
    ≡ some (pos 2560, pos 1440)
parse_xrandr_res-format_uint_example =
    parse_xrandr_res-format_uint 2560 1440 (codes "0+0") (omega arith) (omega arith)

abbrev profiler : Option Bytes
profiler = some (
    codes
      "Displays:\n  Color LCD:\n    Resolution: 3456 x 2234 Retina\n  Wall:\n    Resolution: 2560 x 1440 (QHD)\n")

abbrev wall : DisplayInfo
wall = record { index = pos 2; width = pos 2560; height = pos 1440 }

-- What system_profiler prints is read.
macos_displays_runs :
    macos_displays profiler
    ≡ record { index = pos 1; width = pos 3456; height = pos 2234 } ∷ wall ∷ []
unfolding macos_displays collect_from profiler_line parse_resolution resolution_of split onto_first
    trim_space trim_left has_prefix trim_prefix contains cut index fields fields_from atoi parse_int
    parse_uint parse_digits signed text_eq
macos_displays_runs = refl

abbrev two_displays : System
two_displays = record {
  decode_message = decode_message;
  encode_message = λ m. m.kind;
  decode_input = λ payload. none;
  decode_display = λ payload. some (pos 2);
  encode_switched = λ display count. codes "switched";
  system_info = λ name. registration_of [];
  to_json = λ reg. reg.credential;
  display_count = get_display_count darwin profiler;
}

abbrev idle : Agent
idle = new_agent (codes "desk") (codes "v1.a1.00")

-- Two displays of a Linux agent are reported.
linux_displays_runs : length (linux_displays xrandr) ≡ 2
unfolding linux_displays collect_from xrandr_line first_geometry parse_xrandr_res split onto_first
    trim_space trim_left has_prefix trim_prefix contains cut index fields fields_from atoi parse_int
    parse_uint parse_digits signed text_eq
linux_displays_runs = refl

abbrev one_display : System
one_display = record two_displays { display_count = get_display_count linux none }

linux_displays-handle_switch_display_example : handle_switch_display one_display [] idle ≡ idle
linux_displays-handle_switch_display_example =
    linux_displays-handle_switch_display one_display [] none idle linux 2 (inl refl) (omega arith)
      refl refl
