-- ===== src/Client/Info/Numbering.antt =====
-- cmd/agent/sysinfo.go: the displays of CollectSystemInfo are numbered.
use rmm.Base.{
  ℕ, zero, suc, ◌≡◌, refl, List, [], ◌∷◌, Bytes, length, Option, none, some, arith, option_rule,
}
use rmm.Base.Int.{ℤ, pos}
use rmm.Protocol.Message.{DisplayInfo}
use rmm.Client.Info.Displays.{collect_from}
use rmm.Client.Info.Linux.{linux_displays}
use rmm.Client.Info.Darwin.{macos_displays}
use rmm.Client.Info.Windows.{windows_displays}
use rmm.Client.Info.{
  SystemInfo, PlatformFacts, on_linux, on_darwin, on_windows, Host, collect_platform_info,
  first_info, collected, with_display_count, collect_system_info,
}

-- The indices are i, i + 1, i + 2 and so on.
abbrev pub Numbered : ℕ → List DisplayInfo → Type 0
Numbered i [] = Unit
Numbered i (d ∷ ds) = (d.index ≡ pos i) × Numbered (suc i) ds

collect_from-Numbered :
    (parse : Bytes → Option (ℤ × ℤ)) (i : ℕ) (lines : List Bytes)
    → Numbered i (collect_from parse i lines)
unfolding collect_from
collect_from-Numbered parse i [] = tt
collect_from-Numbered parse i (line ∷ rest) =
    option_rule (Numbered i) (parse line) (collect_from parse i rest)
      (λ size.
        record { index = pos i; width = size.0; height = size.1 } ∷ collect_from parse (suc i) rest)
      (collect_from-Numbered parse i rest)
      (λ size. (refl, collect_from-Numbered parse (suc i) rest))

platform-Numbered :
    (p : PlatformFacts) (info : SystemInfo) → Numbered 1 (collect_platform_info p info).displays
unfolding collect_platform_info linux_displays macos_displays windows_displays
platform-Numbered (on_linux release meminfo disk none uptime parse) info = tt
platform-Numbered (on_linux release meminfo disk (some out) uptime parse) info =
    collect_from-Numbered _ 1 _
platform-Numbered (on_darwin vers memsize pagesize vm_stat disk none boottime now) info = tt
platform-Numbered (on_darwin vers memsize pagesize vm_stat disk (some out) boottime now) info =
    collect_from-Numbered _ 1 _
platform-Numbered (on_windows caption memory disk none uptime) info = tt
platform-Numbered (on_windows caption memory disk (some out) uptime) info =
    collect_from-Numbered _ 1 _

abbrev pub at_least_one : ℕ → ℕ
at_least_one zero = 1
at_least_one (suc n) = suc n

platform_count :
    (p : PlatformFacts) (host : Host) (name : Bytes)
    → (collect_platform_info p (first_info host name)).display_count ≡ pos 0
unfolding collect_platform_info first_info
platform_count (on_linux release meminfo disk out uptime parse) host name = refl
platform_count (on_darwin vers memsize pagesize vm_stat disk out boottime now) host name = refl
platform_count (on_windows caption memory disk out uptime) host name = refl

counted :
    (info : SystemInfo)
    → info.display_count ≡ pos 0
    → (with_display_count info).display_count ≡ pos (at_least_one (length info.displays))
unfolding with_display_count
counted info e = ground arith

pub record IsNumbered (info : SystemInfo) : Type 0 where
  pub numbered : Numbered 1 info.displays
  pub count : info.display_count ≡ pos (at_least_one (length info.displays))

-- Whatever the host answers, the displays of the registration are numbered from 1 on without a gap, and
-- the display count is their number, or 1 if there is none.
pub collect_system_info-IsNumbered :
    (host : Host) (name : Bytes) → IsNumbered (collect_system_info host name)
unfolding collect_system_info collected with_display_count
collect_system_info-IsNumbered host name = record {
  numbered = platform-Numbered host.platform (first_info host name);
  count = counted (collected host name) (platform_count host.platform host name);
}
