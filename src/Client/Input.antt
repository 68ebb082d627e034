-- ===== src/Client/Input.antt =====
-- cmd/agent/input.go: the injectors. A run of a tool is a command in the state; its output and its
-- error change nothing. Looking for a tool in the path is an argument.
pub mod Scripts
pub mod Runs
use rmm.Base.{
  ℕ, ◌/◌, List, [], ◌∷◌, ◌++◌, Bytes, codes, ltb, ◌==◌, text_eq, if◌then◌else◌, length, Bool, true,
  false, not, ◌||◌, Option, none, some,
}
use rmm.Base.Int.{ℤ, pos, quotient, next_int, eq_ℕ}
use rmm.Go.Strconv.{format_int}
use rmm.Client.State.{Injection, mouse, key}
use rmm.Client.Input.Scripts.{
  windows_mouse_script, windows_key_script, darwin_key_script, windows_key,
}

-- `runtime.GOOS`.
pub data Os : Type 0 where
  darwin linux windows other_os : Os

pub record Command : Type 0 where
  pub program : Bytes
  pub args : List Bytes

-- Whether a tool was looked for, and whether it was found.
pub record Tool : Type 0 where
  pub checked : Bool
  pub available : Bool

-- The package's variables, and the commands that were run, the first first.
pub record Injector : Type 0 where
  pub cliclick : Tool
  pub xdotool : Tool
  pub ran : List Command

abbrev pub unknown : Tool
unknown = record { checked = false; available = false }

unfoldable pub new_injector : Injector
new_injector = record { cliclick = unknown; xdotool = unknown; ran = [] }

unfoldable pub look_for : Bool → Tool → Tool
look_for found t =
    if t.checked
    then t
    else record { checked = true; available = if found then true else t.available }

unfoldable pub run_commands : List Command → Injector → Injector
run_commands commands s = record s { ran = s.ran ++ commands }

abbrev point : ℤ → ℤ → Bytes
point x y = format_int x ++ (b',' ∷ format_int y)

abbrev pub retina_scale : ℕ
retina_scale = 2

unfoldable pub cliclick_args : Bytes → ℤ → ℤ → ℤ → List Bytes
unfolding point
cliclick_args action x y button =
    let scaled = point (quotient x retina_scale) (quotient y retina_scale) in
    if text_eq action (codes "move")
    then (codes "m:" ++ scaled) ∷ []
    else if text_eq action (codes "down")
    then (codes "m:" ++ scaled) ∷ []
    else if text_eq action (codes "up")
    then (if eq_ℕ button 2 then (codes "rc:" ++ scaled) ∷ [] else (codes "c:" ++ scaled) ∷ [])
    else []

unfoldable pub inject_mouse_darwin : Bool → Bytes → ℤ → ℤ → ℤ → Injector → Injector
inject_mouse_darwin found action x y button s =
    let s₁ = record s { cliclick = look_for found s.cliclick } in
    if not s₁.cliclick.available
    then s₁
    else (let args = cliclick_args action x y button in
        if ltb 0 (length args)
        then run_commands (record { program = codes "cliclick"; args = args } ∷ []) s₁
        else s₁)

unfoldable pub inject_key_darwin : Bytes → Injector → Injector
inject_key_darwin k s =
    let script = darwin_key_script k in
    if text_eq script []
    then s
    else run_commands (record { program = codes "osascript"; args = codes "-e" ∷ script ∷ [] } ∷ [])
        s

abbrev pub xdo : List Bytes → Command
xdo args = record { program = codes "xdotool"; args = args }

unfoldable pub xdotool_commands : Bytes → ℤ → ℤ → ℤ → List Command
unfolding xdo
xdotool_commands action x y button =
    let move = xdo (codes "mousemove" ∷ format_int x ∷ format_int y ∷ []) in
    let bs = format_int (next_int button) in
    if text_eq action (codes "move")
    then move ∷ []
    else if text_eq action (codes "down")
    then move ∷ xdo (codes "mousedown" ∷ bs ∷ []) ∷ []
    else if text_eq action (codes "up")
    then move ∷ xdo (codes "mouseup" ∷ bs ∷ []) ∷ []
    else []

unfoldable pub inject_mouse_linux : Bool → Bytes → ℤ → ℤ → ℤ → Injector → Injector
inject_mouse_linux found action x y button s =
    let s₁ = record s { xdotool = look_for found s.xdotool } in
    if not s₁.xdotool.available then s₁ else run_commands (xdotool_commands action x y button) s₁

unfoldable pub xdo_key : Bytes → Bytes
xdo_key k =
    if text_eq k (codes "Enter")
    then codes "Return"
    else if text_eq k (codes "Backspace")
    then codes "BackSpace"
    else if text_eq k (codes "ArrowUp")
    then codes "Up"
    else if text_eq k (codes "ArrowDown")
    then codes "Down"
    else if text_eq k (codes "ArrowLeft")
    then codes "Left"
    else if text_eq k (codes "ArrowRight")
    then codes "Right"
    else if text_eq k (codes " ")
    then codes "space"
    else k

unfoldable pub inject_key_linux : Bytes → Injector → Injector
unfolding xdo
inject_key_linux k s =
    if not s.xdotool.available then s else run_commands (xdo (codes "key" ∷ xdo_key k ∷ []) ∷ []) s

abbrev pub powershell : Bytes → Command
powershell script = record { program = codes "powershell"; args = codes "-Command" ∷ script ∷ [] }

unfoldable pub inject_mouse_windows : Bytes → ℤ → ℤ → Injector → Injector
unfolding powershell
inject_mouse_windows action x y s =
    let ps : Bytes =
      if text_eq action (codes "move")
      then windows_mouse_script x y []
      else if text_eq action (codes "down")
      then windows_mouse_script x y (codes "0x0002")
      else if text_eq action (codes "up")
      then windows_mouse_script x y (codes "0x0004")
      else [] in
    if text_eq ps [] then s else run_commands (powershell ps ∷ []) s

unfoldable pub inject_key_windows : Bytes → Injector → Injector
unfolding powershell
inject_key_windows k s = run_commands (powershell (windows_key_script (windows_key k)) ∷ []) s

-- `injectMouse`, and `injectKey` of a key that goes down.
unfoldable pub inject : Os → Bool → Injection → Injector → Injector
inject darwin found (mouse action x y button) s = inject_mouse_darwin found action x y button s
inject linux found (mouse action x y button) s = inject_mouse_linux found action x y button s
inject windows found (mouse action x y button) s = inject_mouse_windows action x y s
inject other_os found (mouse action x y button) s = s
inject darwin found (key k code) s = inject_key_darwin k s
inject linux found (key k code) s = inject_key_linux k s
inject windows found (key k code) s = inject_key_windows k s
inject other_os found (key k code) s = s

-- The events of a session, in order.
unfoldable pub inject_all : Os → Bool → List Injection → Injector → Injector
unfolding inject
inject_all os found [] s = s
inject_all os found (event ∷ events) s = inject_all os found events (inject os found event s)
