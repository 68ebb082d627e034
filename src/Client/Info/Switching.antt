-- ===== src/Client/Info/Switching.antt =====
-- cmd/agent/sysinfo.go and capture.go: which of the displays that an agent registers a viewer can
-- switch to.
use rmm.Base.{
  ℕ, suc, ◌+◌, ◌≤◌, ◌<◌, ◌≡◌, refl, ap, ◌∙◌, List, [], ◌∷◌, Bytes, codes, length, true, Option,
  none, some, arith, option_rule, Bool-cases, Option-cases, inl, inr, ◌⊎◌,
}
use rmm.Base.Int.{ℤ, pos}
use rmm.Go.Strings.{has_prefix, trim_space, contains, index, lines}
use rmm.Go.Strings.Laws.{Has, here, there}
use rmm.Go.Strings.Trim.{contains-trim_space}
use rmm.Protocol.Message.{DisplayInfo}
use rmm.Client.State.{System, Agent}
use rmm.Client.Capture.{handle_switch_display}
use rmm.Client.Input.{Os, darwin, linux, windows}
use rmm.Client.Screen.{get_display_count, count_lines}
use rmm.Client.Info.Displays.{collect_from}
use rmm.Client.Info.Darwin.{macos_displays, profiler_line}

-- The index of a display that was found from index i on.
abbrev Found : DisplayInfo → ℕ → List DisplayInfo → Type 0
Found d i ds = (k : ℕ) × (d.index ≡ pos k) × (i ≤ k) × (k < i + length ds)

Found-cons :
    (d x : DisplayInfo) (i : ℕ) (xs : List DisplayInfo)
    → x.index ≡ pos i
    → (Has d xs → Found d (suc i) xs)
    → Has d (x ∷ xs)
    → Found d i (x ∷ xs)
Found-cons d x i xs e ih (here _) = (i, e, omega arith, omega arith)
Found-cons d x i xs e ih (there _ _ h) =
    let (k, ek, low, high) = ih h in (k, ek, omega arith, omega arith)

Has-Found :
    (parse : Bytes → Option (ℤ × ℤ)) (d : DisplayInfo) (i : ℕ) (ls : List Bytes)
    → Has d (collect_from parse i ls)
    → Found d i (collect_from parse i ls)
unfolding collect_from
Has-Found parse d i [] h = elim h [ ]
Has-Found parse d i (line ∷ ls) h =
    option_rule (λ ds. Has d ds → Found d i ds) (parse line) (collect_from parse i ls)
      (λ size.
        record { index = pos i; width = size.0; height = size.1 } ∷ collect_from parse (suc i) ls)
      (Has-Found parse d i ls) (λ size. Found-cons d _ i _ refl (Has-Found parse d (suc i) ls)) h

profiler_line-contains :
    (line : Bytes) (size : ℤ × ℤ)
    → profiler_line line ≡ some size
    → contains line (codes "Resolution:") ≡ true
unfolding profiler_line
profiler_line-contains line size e =
    elim (Bool-cases (has_prefix (trim_space line) (codes "Resolution:"))) [
      | inl h ↦ contains-trim_space line (codes "Resolution:") h
      | inr h ↦ absurd (ground (arith, e, h))
    ]

-- A display is reported for some of the lines that are counted.
length-collect_from :
    (i : ℕ) (ls : List Bytes)
    → length (collect_from profiler_line i ls) ≤ count_lines (codes "Resolution:") ls
unfolding collect_from count_lines
length-collect_from i [] = omega arith
length-collect_from i (line ∷ ls) = elim (Option-cases (profiler_line line)) [
  | inl e ↦ ground (arith, e, length-collect_from i ls)
  | inr (size, e) ↦
      ground (arith, e, profiler_line-contains line size e, length-collect_from (suc i) ls)
]

macos_displays-count :
    (out : Option Bytes) → length (macos_displays out) ≤ get_display_count darwin out
unfolding macos_displays get_display_count
macos_displays-count none = omega arith
macos_displays-count (some out) = ground (arith, length-collect_from 1 (lines out))

macos_displays-Found :
    (out : Option Bytes) (d : DisplayInfo)
    → Has d (macos_displays out)
    → Found d 1 (macos_displays out)
unfolding macos_displays
macos_displays-Found none d h = elim h [ ]
macos_displays-Found (some out) d h = Has-Found profiler_line d 1 (lines out) h

module _ (system : System) (payload : Bytes) (out : Option Bytes) (a : Agent) where
  -- On macOS a viewer can switch to each display that the registration reports, when the display count
  -- is taken from the same output of system_profiler.
  macos_displays-handle_switch_display :
      (d : DisplayInfo)
      → Has d (macos_displays out)
      → system.display_count ≡ get_display_count darwin out
      → system.decode_display payload ≡ some d.index
      → (handle_switch_display system payload a).current_display ≡ d.index
  unfolding handle_switch_display
  macos_displays-handle_switch_display d h count decoded =
      let (k, index, low, high) = macos_displays-Found out d h in
      ground (arith, decoded, index, count, macos_displays-count out)

  refused :
      (k : ℕ)
      → 1 < k
      → system.display_count ≡ 1
      → system.decode_display payload ≡ some (pos k)
      → handle_switch_display system payload a ≡ a
  unfolding handle_switch_display
  refused k h count decoded = ground (arith, h, count, decoded)

  -- On Linux and Windows no viewer can switch to a display beyond the first, also when the registration
  -- reports it: the request changes nothing.
  pub linux_displays-handle_switch_display :
      (os : Os) (k : ℕ)
      → (os ≡ linux) ⊎ (os ≡ windows)
      → 1 < k
      → system.display_count ≡ get_display_count os out
      → system.decode_display payload ≡ some (pos k)
      → handle_switch_display system payload a ≡ a
  unfolding get_display_count
  linux_displays-handle_switch_display os k (inl e) h count decoded =
      refused k h (count ∙ ap (λ o. get_display_count o out) e) decoded
  linux_displays-handle_switch_display os k (inr e) h count decoded =
      refused k h (count ∙ ap (λ o. get_display_count o out) e) decoded
