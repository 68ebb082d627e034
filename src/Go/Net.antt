-- ===== src/Go/Net.antt =====
-- What the program uses of Go's package net: interfaces and their addresses.
use rmm.Base.{List, Bytes, Bool, Option}

-- net.IP, by what is asked of it.
pub record Ip : Type 0 where
  pub loopback : Bool
  pub link_local : Bool
  pub text : Bytes

pub data Addr : Type 0 where
  ip_net : Ip → Addr
  ip_addr : Ip → Addr
  other_addr : Addr

-- `addrs` is none where Addrs fails.
pub record Interface : Type 0 where
  pub is_up : Bool
  pub is_loopback : Bool
  pub addrs : Option (List Addr)
