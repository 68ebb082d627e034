-- ===== src/Go/Os.antt =====
-- What the program uses of Go's package os: a file that is read, or truncated and written.
use rmm.Base.{ℕ, Bytes, take, Bool, true, false, if◌then◌else◌, Option, none, some}

-- How the write of a file goes. The open truncates; a write that fails leaves so many bytes.
pub data Write : Type 0 where
  succeeds : Write
  fails_to_open : Write
  fails_after : ℕ → Write

-- Whether there was no error, and the contents of the file, none where it is missing.
unfoldable pub write_file : Write → Bytes → Option Bytes → Bool × Option Bytes
write_file succeeds text file = (true, some text)
write_file fails_to_open text file = (false, file)
write_file (fails_after n) text file = (false, some (take n text))

-- ReadFile: none is an error.
unfoldable pub read_file : Bool → Option Bytes → Option Bytes
read_file readable file = if readable then file else none
