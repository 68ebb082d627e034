-- ===== src/Client/Info.antt =====
-- cmd/agent/sysinfo.go, sysinfo_unix.go: CollectSystemInfo over what the host answers.
pub mod Displays
pub mod Linux
pub mod Darwin
pub mod Windows
pub mod Numbering
pub mod Geometry
pub mod Switching
use rmm.Base.{
  ℕ, ◌*◌, List, [], ◌∷◌, ◌++◌, Bytes, codes, ltb, text_eq, if◌then◌else◌, length, Bool, true, false,
  not, ◌||◌, Option, none, some,
}
use rmm.Base.Int.{ℤ, pos, lt_ℕ}
use rmm.Go.Net.{Ip, Addr, ip_net, ip_addr, other_addr, Interface}
use rmm.Protocol.Message.{DisplayInfo, Registration}
use rmm.Client.Info.Displays.{uint64}
use rmm.Client.Info.Linux.{linux_os_version, linux_memory, linux_displays, linux_uptime}
use rmm.Client.Info.Darwin.{macos_version, macos_memory, macos_displays, macos_uptime}
use rmm.Client.Info.Windows.{
  windows_os_version, windows_memory, windows_disk, windows_displays, windows_uptime,
}

-- The struct has the fields that the server decodes.
abbrev pub SystemInfo : Type 0
SystemInfo = Registration

pub record Statfs : Type 0 where
  pub blocks : ℕ
  pub bavail : ℕ
  pub bsize : ℕ

unfoldable pub disk_usage : Option Statfs → ℕ × ℕ
disk_usage none = (0, 0)
disk_usage (some stat) = (uint64 (stat.blocks * stat.bsize), uint64 (stat.bavail * stat.bsize))

-- What the files and the commands of a platform give.
pub data PlatformFacts : Type 0 where
  on_linux :
      (os_release meminfo : Option Bytes) (disk : Option Statfs) (xrandr uptime : Option Bytes)
      → (parse_seconds : Bytes → Option ℤ) → PlatformFacts
  on_darwin :
      (sw_vers memsize pagesize vm_stat : Option Bytes) (disk : Option Statfs)
      (profiler boottime : Option Bytes) (now : ℤ)
      → PlatformFacts
  on_windows : (caption memory disk video uptime : Option Bytes) → PlatformFacts

unfoldable pub collect_platform_info : PlatformFacts → SystemInfo → SystemInfo
collect_platform_info (on_linux os_release meminfo disk xrandr uptime parse_seconds) info =
    record info {
      os_version = linux_os_version os_release;
      memory_total = (linux_memory meminfo).0;
      memory_free = (linux_memory meminfo).1;
      disk_total = (disk_usage disk).0;
      disk_free = (disk_usage disk).1;
      displays = linux_displays xrandr;
      uptime_seconds = linux_uptime parse_seconds uptime;
    }
collect_platform_info (on_darwin sw_vers memsize pagesize vm_stat disk profiler boottime now) info =
    record info {
      os_version = macos_version sw_vers;
      memory_total = (macos_memory memsize pagesize vm_stat).0;
      memory_free = (macos_memory memsize pagesize vm_stat).1;
      disk_total = (disk_usage disk).0;
      disk_free = (disk_usage disk).1;
      displays = macos_displays profiler;
      uptime_seconds = macos_uptime now boottime;
    }
collect_platform_info (on_windows caption memory disk video uptime) info = record info {
  os_version = windows_os_version caption;
  memory_total = (windows_memory memory).0;
  memory_free = (windows_memory memory).1;
  disk_total = (windows_disk disk).0;
  disk_free = (windows_disk disk).1;
  displays = windows_displays video;
  uptime_seconds = windows_uptime uptime;
}

abbrev text_of : Ip → Bytes
text_of ip = if ip.loopback || ip.link_local then [] else ip.text

unfoldable pub extract_ip : Addr → Bytes
unfolding text_of
extract_ip (ip_net ip) = text_of ip
extract_ip (ip_addr ip) = text_of ip
extract_ip other_addr = []

unfoldable pub extract_ips : List Addr → List Bytes
unfolding extract_ip
extract_ips [] = []
extract_ips (addr ∷ addrs) =
    if not (text_eq (extract_ip addr) [])
    then extract_ip addr ∷ extract_ips addrs
    else extract_ips addrs

unfoldable pub interface_ips : List Interface → List Bytes
unfolding extract_ips
interface_ips [] = []
interface_ips (iface ∷ ifaces) =
    if not iface.is_up || iface.is_loopback then interface_ips ifaces else elim iface.addrs [
      | none ↦ interface_ips ifaces
      | some addrs ↦ extract_ips addrs ++ interface_ips ifaces
    ]

-- `none` is an error of net.Interfaces.
unfoldable pub collect_local_ips : Option (List Interface) → List Bytes
unfolding interface_ips
collect_local_ips none = []
collect_local_ips (some ifaces) = interface_ips ifaces

unfoldable pub get_hostname : Option Bytes → Bytes
get_hostname none = codes "unknown"
get_hostname (some h) = h

pub record Host : Type 0 where
  pub hostname : Option Bytes
  pub goos : Bytes
  pub goarch : Bytes
  pub num_cpu : ℕ
  pub version : Bytes
  pub platform : PlatformFacts
  pub interfaces : Option (List Interface)
  pub username : Option Bytes

-- The end of CollectSystemInfo.
unfoldable pub with_display_count : SystemInfo → SystemInfo
with_display_count info =
    let counted =
      if ltb 0 (length info.displays) then pos (length info.displays) else info.display_count in
    record info { display_count = if lt_ℕ counted 1 then pos 1 else counted }

-- The struct literal at the start of CollectSystemInfo.
unfoldable pub first_info : Host → Bytes → SystemInfo
first_info host name = record {
  credential = [];
  name = if text_eq name [] then get_hostname host.hostname else name;
  hostname = get_hostname host.hostname;
  os = host.goos;
  os_version = [];
  arch = host.goarch;
  cpu_count = pos host.num_cpu;
  memory_total = 0;
  memory_free = 0;
  disk_total = 0;
  disk_free = 0;
  displays = [];
  display_count = pos 0;
  local_ips = [];
  username = [];
  uptime_seconds = pos 0;
  agent_version = host.version;
}

-- All but the display count.
unfoldable pub collected : Host → Bytes → SystemInfo
collected host name = record (collect_platform_info host.platform (first_info host name)) {
  local_ips = collect_local_ips host.interfaces;
  username = elim host.username [ none ↦ [] | some u ↦ u ];
}

unfoldable pub collect_system_info : Host → Bytes → SystemInfo
collect_system_info host name = with_display_count (collected host name)

unfoldable pub primary_display : SystemInfo → DisplayInfo
primary_display info = elim info.displays [
  | [] ↦ record { index = pos 1; width = pos 0; height = pos 0 }
  | d ∷ rest ↦ d
]
