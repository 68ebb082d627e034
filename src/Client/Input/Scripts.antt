-- ===== src/Client/Input/Scripts.antt =====
-- cmd/agent/input.go: the scripts that the injectors of macOS and Windows hand to their shells.
use rmm.Base.{[], ◌∷◌, ◌++◌, Bytes, codes, ◌==◌, text_eq, if◌then◌else◌, length, ◌||◌}
use rmm.Base.Int.{ℤ}
use rmm.Go.Strconv.{format_int}
use rmm.Go.Strings.{newline}

abbrev to_events : Bytes
to_events = codes "tell application \"System Events\" to "

unfoldable pub key_code_of : Bytes → Bytes
key_code_of key =
    if text_eq key (codes "Enter")
    then codes "36"
    else if text_eq key (codes "Tab")
    then codes "48"
    else if text_eq key (codes "Backspace")
    then codes "51"
    else if text_eq key (codes "Escape")
    then codes "53"
    else if text_eq key (codes "ArrowUp")
    then codes "126"
    else if text_eq key (codes "ArrowDown")
    then codes "125"
    else if text_eq key (codes "ArrowLeft")
    then codes "123"
    else if text_eq key (codes "ArrowRight")
    then codes "124"
    else if text_eq key (codes "Space") || text_eq key (codes " ")
    then codes "49"
    else []

-- Empty where nothing is run.
unfoldable pub darwin_key_script : Bytes → Bytes
unfolding to_events
darwin_key_script key =
    if text_eq (key_code_of key) []
    then (if length key == 1
        then to_events ++ (codes "keystroke \"" ++ (key ++ codes "\""))
        else [])
    else to_events ++ (codes "key code " ++ key_code_of key)

abbrev line : Bytes → Bytes
line text = text ++ (newline ∷ [])

abbrev pub forms : Bytes
forms = line [] ++ line (codes "Add-Type -AssemblyName System.Windows.Forms")

unfoldable pub windows_mouse_script : ℤ → ℤ → Bytes → Bytes
unfolding forms
windows_mouse_script x y mouse_event_flag =
    let base =
      forms
      ++ line (
          codes "[System.Windows.Forms.Cursor]::Position = New-Object System.Drawing.Point("
          ++ (format_int x ++ (codes ", " ++ (format_int y ++ codes ")")))) in
    if text_eq mouse_event_flag []
    then base
    else base
      ++ (line (codes "$signature = @\"")
          ++ (line (codes "[DllImport(\"user32.dll\")]")
              ++ (line (
                    codes
                      "public static extern void mouse_event(int dwFlags, int dx, int dy, int dwData, int dwExtraInfo);")
                  ++ (line (codes "\"@")
                      ++ (line (
                            codes
                              "$mouse = Add-Type -MemberDefinition $signature -Name \"MouseEvent\" -Namespace \"Win32\" -PassThru")
                          ++ line (
                              codes "$mouse::mouse_event("
                              ++ (mouse_event_flag ++ codes ", 0, 0, 0, 0)")))))))

unfoldable pub windows_key : Bytes → Bytes
windows_key key =
    if text_eq key (codes "Enter")
    then codes "{ENTER}"
    else if text_eq key (codes "Tab")
    then codes "{TAB}"
    else if text_eq key (codes "Backspace")
    then codes "{BACKSPACE}"
    else if text_eq key (codes "Escape")
    then codes "{ESC}"
    else if text_eq key (codes "ArrowUp")
    then codes "{UP}"
    else if text_eq key (codes "ArrowDown")
    then codes "{DOWN}"
    else if text_eq key (codes "ArrowLeft")
    then codes "{LEFT}"
    else if text_eq key (codes "ArrowRight")
    then codes "{RIGHT}"
    else if text_eq key (codes " ")
    then codes " "
    else key

unfoldable pub windows_key_script : Bytes → Bytes
unfolding forms
windows_key_script send_key =
    forms
    ++ line (codes "[System.Windows.Forms.SendKeys]::SendWait(\"" ++ (send_key ++ codes "\")"))
