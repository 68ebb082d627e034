-- ===== src/Client/Dial.antt =====
-- cmd/agent/agent.go: dialWebSocket, but for the connection itself. What url.Parse gives and the key of
-- the handshake are arguments.
pub mod Handshake
pub mod Suffix
use rmm.Base.{
  ℕ, [], ◌∷◌, ◌++◌, Bytes, codes, ltb, ◌==◌, text_eq, if◌then◌else◌, length, take, drop, Bool, true,
  false, not, ◌&&◌, ◌||◌, Option, none, some,
}
use mathlib.Core.List.{reverse}
use rmm.Go.Strings.{contains, newline}

pub record Url : Type 0 where
  pub scheme : Bytes
  pub host : Bytes
  pub path : Bytes

unfoldable pub socket_path : Url → Bytes
socket_path u = if text_eq u.path [] then codes "/ws/agent" else u.path ++ codes "/ws/agent"

-- The host with a port.
unfoldable pub dial_host : Url → Bytes
dial_host u =
    if not (contains u.host (codes ":"))
    then (if text_eq u.scheme (codes "wss") then u.host ++ codes ":443" else u.host ++ codes ":80")
    else u.host

-- Whether tls.Dial is called; the second argument tells whether there is a TLS configuration.
unfoldable pub dials_tls : Url → Bool → Bool
dials_tls u has_config = text_eq u.scheme (codes "wss") && has_config

unfoldable pub handshake_request : Bytes → Bytes → Bytes → Bytes
handshake_request path host key =
    codes "GET "
    ++ (path
        ++ (codes " HTTP/1.1\r\n"
            ++ (codes "Host: "
                ++ (host
                    ++ (codes "\r\n"
                        ++ (codes "Upgrade: websocket\r\nConnection: Upgrade\r\n"
                            ++ (codes "Sec-WebSocket-Key: "
                                ++ (key ++ codes "\r\nSec-WebSocket-Version: 13\r\n\r\n"))))))))

-- `ReadString('\n')`: the line with its end, and the rest; none is an error.
unfoldable pub read_line : Bytes → Option (Bytes × Bytes)
read_line [] = none
read_line (c ∷ s) = elim (c == newline) [
  | true ↦ some (c ∷ [], s)
  | false ↦ elim (read_line s) [ none ↦ none | some (line, rest) ↦ some (c ∷ line, rest) ]
]

-- The loop over the response headers, a byte at a time: `line` is what was read of the line, the last
-- byte first. What is left is where the frames start.
unfoldable pub skip_headers : Bytes → Bytes → Option Bytes
skip_headers line [] = none
skip_headers line (c ∷ s) = elim (c == newline) [
  | true ↦ elim (text_eq (reverse (c ∷ line)) (codes "\r\n")) [
    | true ↦ some s
    | false ↦ skip_headers [] s
  ]
  | false ↦ skip_headers (c ∷ line) s
]

-- From the answer of the server to the first frame.
unfoldable pub read_handshake : Bytes → Option Bytes
read_handshake stream = elim (read_line stream) [
  | none ↦ none
  | some (status_line, rest) ↦
      if ltb (length status_line) 12 || not (text_eq (take 3 (drop 9 status_line)) (codes "101"))
      then none
      else skip_headers [] rest
]

pub data Dialed : Type 0 where
  dial_error : Dialed
  -- The host, whether over TLS, the request that was written, and what is left of the stream.
  dialed : Bytes → Bool → Bytes → Bytes → Dialed

-- `parsed` is none where the URL does not parse; `connects` tells whether a dial succeeds, `written`
-- whether the request can be written, and `stream` is what the server sends.
unfoldable pub dial_web_socket :
    Option Url → Bool → (Bytes → Bool → Bool) → Bool → Bytes → Bytes → Dialed
dial_web_socket none has_config connects written key stream = dial_error
dial_web_socket (some u) has_config connects written key stream =
    let host = dial_host u in
    let over_tls = dials_tls u has_config in
    if not (connects host over_tls) || not written
    then dial_error
    else elim (read_handshake stream) [
      | none ↦ dial_error
      | some rest ↦ dialed host over_tls (handshake_request (socket_path u) host key) rest
    ]
