-- ===== src/Client/Screen.antt =====
-- cmd/agent/capture.go: captureScreen with the tools that take the picture, and getDisplayCount. Whether
-- a tool runs without an error, and what is in the file behind it, are arguments.
pub mod Pattern
pub mod PatternBounds
pub mod Fallback
use rmm.Base.{
  ℕ, suc, List, [], ◌∷◌, ◌++◌, Bytes, codes, ◌==◌, if◌then◌else◌, Bool, true, false, Option, none,
  some,
}
use rmm.Base.Int.{ℤ}
use rmm.Go.Strings.{contains, lines, newline}
use rmm.Go.Strconv.{format_int}
use rmm.Client.Input.{Os, darwin, linux, windows, other_os, Command}

-- The world of one capture: the name of the temporary file, whether a command ends without an error,
-- the contents of the file, and the outcome of the test pattern.
pub record Scene : Type 0 where
  pub tmp_file : Bytes
  pub runs : Command → Bool
  pub read_file : Option Bytes
  pub test_pattern : Option Bytes

abbrev pub command : Bytes → List Bytes → Command
command program args = record { program = program; args = args }

abbrev picture_or_pattern : Scene → Option Bytes
picture_or_pattern scene = elim scene.read_file [
  | none ↦ scene.test_pattern
  | some image ↦ some image
]

abbrev pub screencapture : Scene → ℤ → Command
screencapture scene display = command (codes "screencapture") (
    codes "-x"
    ∷ codes "-t"
    ∷ codes "jpg"
    ∷ codes "-C"
    ∷ codes "-D"
    ∷ format_int display
    ∷ scene.tmp_file
    ∷ [])

unfoldable pub capture_screen_macos : Scene → ℤ → Option Bytes
unfolding picture_or_pattern
capture_screen_macos scene display =
    if scene.runs (screencapture scene display)
    then picture_or_pattern scene
    else scene.test_pattern

abbrev pub gnome_screenshot : Scene → Command
gnome_screenshot scene = command (codes "gnome-screenshot") (codes "-f" ∷ scene.tmp_file ∷ [])

abbrev pub scrot : Scene → Command
scrot scene = command (codes "scrot") (codes "-o" ∷ scene.tmp_file ∷ [])

abbrev pub import_root : Scene → Command
import_root scene = command (codes "import") (codes "-window" ∷ codes "root" ∷ scene.tmp_file ∷ [])

unfoldable pub capture_screen_linux : Scene → Option Bytes
unfolding picture_or_pattern
capture_screen_linux scene =
    if scene.runs (gnome_screenshot scene)
    then picture_or_pattern scene
    else if scene.runs (scrot scene)
    then picture_or_pattern scene
    else if scene.runs (import_root scene)
    then picture_or_pattern scene
    else scene.test_pattern

abbrev pub windows_script : Bytes → Bytes
windows_script tmp_file =
    (newline ∷ [])
    ++ (codes "Add-Type -AssemblyName System.Windows.Forms\n"
        ++ (codes "Add-Type -AssemblyName System.Drawing\n"
            ++ (codes "$screen = [System.Windows.Forms.Screen]::PrimaryScreen.Bounds\n"
                ++ (codes
                      "$bitmap = New-Object System.Drawing.Bitmap($screen.Width, $screen.Height)\n"
                    ++ (codes "$graphics = [System.Drawing.Graphics]::FromImage($bitmap)\n"
                        ++ (codes
                              "$graphics.CopyFromScreen($screen.Location, [System.Drawing.Point]::Empty, $screen.Size)\n"
                            ++ (codes "$bitmap.Save('"
                                ++ (tmp_file
                                    ++ codes
                                        "', [System.Drawing.Imaging.ImageFormat]::Jpeg)\n$graphics.Dispose()\n$bitmap.Dispose()\n"))))))))

abbrev pub powershell_capture : Scene → Command
powershell_capture scene =
    command (codes "powershell")
      (codes "-NoProfile" ∷ codes "-Command" ∷ windows_script scene.tmp_file ∷ [])

unfoldable pub capture_screen_windows : Scene → Option Bytes
unfolding picture_or_pattern
capture_screen_windows scene =
    if scene.runs (powershell_capture scene) then picture_or_pattern scene else scene.test_pattern

unfoldable pub capture_screen : Os → Scene → ℤ → Option Bytes
capture_screen darwin scene display = capture_screen_macos scene display
capture_screen linux scene display = capture_screen_linux scene
capture_screen windows scene display = capture_screen_windows scene
capture_screen other_os scene display = scene.test_pattern

unfoldable pub count_lines : Bytes → List Bytes → ℕ
count_lines text [] = 0
count_lines text (line ∷ rest) =
    let n = count_lines text rest in if contains line text then suc n else n

-- The first call; later ones return its result. `none` is an error of system_profiler.
unfoldable pub get_display_count : Os → Option Bytes → ℕ
get_display_count darwin none = 1
get_display_count darwin (some output) =
    let count = count_lines (codes "Resolution:") (lines output) in if count == 0 then 1 else count
get_display_count _ output = 1
