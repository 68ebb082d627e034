-- ===== src/Client/Screen/Fallback.antt =====
-- cmd/agent/capture.go: what a capture gives when tools fail.
use rmm.Base.{List, [], ◌∷◌, Bool, false, ◌||◌, if◌then◌else◌, ◌≡◌, refl, none, some, arith}
use rmm.Base.Int.{ℤ}
use rmm.Client.Input.{Os, darwin, linux, windows, other_os, Command}
use rmm.Client.Screen.{
  Scene, capture_screen, capture_screen_macos, capture_screen_linux, capture_screen_windows,
  screencapture, gnome_screenshot, scrot, import_root, powershell_capture,
}

-- The tools that are tried, in order.
abbrev pub tools : Os → Scene → ℤ → List Command
tools darwin scene display = screencapture scene display ∷ []
tools linux scene display = gnome_screenshot scene ∷ scrot scene ∷ import_root scene ∷ []
tools windows scene display = powershell_capture scene ∷ []
tools other_os scene display = []

abbrev pub one_runs : Scene → List Command → Bool
one_runs scene [] = false
one_runs scene (c ∷ commands) = scene.runs c || one_runs scene commands

-- A capture is the contents of the file if one of the tools of the system ends without an error and
-- the file can be read, and the outcome of the test pattern in all other cases.
pub capture_screen-one_runs :
    (os : Os) (scene : Scene) (display : ℤ)
    → capture_screen os scene display ≡ (
        if one_runs scene (tools os scene display)
        then elim scene.read_file [ none ↦ scene.test_pattern | some image ↦ some image ]
        else scene.test_pattern)
unfolding capture_screen capture_screen_macos capture_screen_linux capture_screen_windows
capture_screen-one_runs darwin scene display = ground arith
capture_screen-one_runs linux scene display = ground arith
capture_screen-one_runs windows scene display = ground arith
capture_screen-one_runs other_os scene display = refl
