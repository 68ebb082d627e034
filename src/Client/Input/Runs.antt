-- ===== src/Client/Input/Runs.antt =====
-- cmd/agent/input.go: what a session of input events runs.
use rmm.Base.{
  List, [], ◌∷◌, ◌++◌, Bytes, codes, text_eq, ◌≡◌, refl, sym, ap, ◌∙◌, Bool, true, false,
  if◌then◌else◌, append-nil, append_assoc,
}
use rmm.Base.Int.{ℤ}
use rmm.Go.Strings.{newline, lines}
use rmm.Go.Strings.Laws.{Has, Without, split-Has}
use rmm.Client.State.{Injection, mouse, key}
use rmm.Client.Input.Scripts.{windows_key, windows_key_script, forms}
use rmm.Client.Input.{
  linux, windows, Command, Tool, Injector, new_injector, look_for, run_commands, xdo_key, xdo,
  xdotool_commands, inject_mouse_linux, inject_key_linux, inject, inject_all, inject_key_windows,
  powershell,
}

-- What a session is to run on Linux: a key counts only behind the first mouse event.
abbrev pub linux_commands : Bool → List Injection → List Command
linux_commands seen [] = []
linux_commands seen (mouse action x y button ∷ events) =
    xdotool_commands action x y button ++ linux_commands true events
linux_commands true (key k code ∷ events) =
    record { program = codes "xdotool"; args = codes "key" ∷ xdo_key k ∷ [] }
    ∷ linux_commands true events
linux_commands false (key k code ∷ events) = linux_commands false events

abbrev tool : Bool → Bool → Tool
tool checked available = record { checked = checked; available = available }

abbrev with_xdotool : Injector → Tool → Injector
with_xdotool s t = record s { xdotool = t }

found_runs :
    (events : List Injection) (s : Injector) (seen : Bool)
    → (inject_all linux true events (with_xdotool s (tool seen seen))).ran
      ≡ s.ran ++ linux_commands seen events
unfolding inject_all inject inject_mouse_linux inject_key_linux look_for run_commands
found_runs [] s seen = sym (append-nil s.ran)
found_runs (mouse action x y button ∷ events) s true =
    found_runs events (run_commands (xdotool_commands action x y button) s) true
    ∙ append_assoc s.ran _ _
found_runs (mouse action x y button ∷ events) s false =
    found_runs events (run_commands (xdotool_commands action x y button) s) true
    ∙ append_assoc s.ran _ _
found_runs (key k code ∷ events) s true =
    found_runs events (run_commands (xdo (codes "key" ∷ xdo_key k ∷ []) ∷ []) s) true
    ∙ append_assoc s.ran _ _
found_runs (key k code ∷ events) s false = found_runs events s false

missing_runs :
    (events : List Injection) (s : Injector) (checked : Bool)
    → (inject_all linux false events (with_xdotool s (tool checked false))).ran ≡ s.ran
unfolding inject_all inject inject_mouse_linux inject_key_linux look_for run_commands
missing_runs [] s checked = refl
missing_runs (mouse action x y button ∷ events) s true = missing_runs events s true
missing_runs (mouse action x y button ∷ events) s false = missing_runs events s true
missing_runs (key k code ∷ events) s checked = missing_runs events s checked

-- On Linux a session of input events runs exactly the commands of its events, in their order, but no
-- key before the first mouse event; where xdotool is not found it runs nothing.
pub inject_all-linux_commands :
    (found : Bool) (events : List Injection)
    → (inject_all linux found events new_injector).ran
      ≡ (if found then linux_commands false events else [])
unfolding new_injector
inject_all-linux_commands true events = found_runs events new_injector false
inject_all-linux_commands false events = missing_runs events new_injector false

-- A key that closes the literal of the script, has the given text on a line of its own, and makes the
-- rest of the script a comment.
abbrev pub breaking : Bytes → Bytes
breaking text = codes "\")" ++ (newline ∷ (text ++ (newline ∷ codes "#")))

abbrev before : Bytes
before = forms ++ codes "[System.Windows.Forms.SendKeys]::SendWait(\"\")"

abbrev behind : Bytes
behind = codes "#\")" ++ (newline ∷ [])

windows_key_script-breaking :
    (text : Bytes)
    → windows_key_script (windows_key (breaking text))
      ≡ before ++ (newline ∷ (text ++ (newline ∷ behind)))
unfolding windows_key windows_key_script text_eq
windows_key_script-breaking text =
    ap (λ r. before ++ (newline ∷ r))
      (append_assoc (text ++ (newline ∷ codes "#")) (codes "\")") (newline ∷ [])
        ∙ append_assoc text (newline ∷ codes "#") (codes "\")" ++ (newline ∷ [])))

-- On Windows any text of one line can be made a line of the script that powershell is given, by an
-- input event alone: the key is put into the script as it is.
pub breaking-Has :
    (text : Bytes) (code : ℤ) (found : Bool) (s : Injector)
    → Without newline text
    → (script : Bytes) × ((inject windows found (key (breaking text) code) s).ran
        ≡ s.ran ++ (powershell script ∷ []))
      × Has text (lines script)
unfolding inject inject_key_windows run_commands
breaking-Has text code found s w = (
  windows_key_script (windows_key (breaking text)),
  refl,
  rw (windows_key_script-breaking text) (split-Has newline before text behind w),
)
