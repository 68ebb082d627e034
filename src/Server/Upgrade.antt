-- ===== src/Server/Upgrade.antt =====
-- cmd/server/websocket.go: the handshake.
use rmm.Base.{◌≡◌, [], ◌++◌, Bytes, codes, text_eq, text_eq_iff, if◌then◌else◌, not, ◌≢◌, arith}
use rmm.Http.{Request}
use rmm.Protocol.Frame.{accept_key}

pub data UpgradeError : Type 0 where
  not_websocket missing_key hijacking_unsupported hijack_failed write_failed : UpgradeError

-- What the HTTP server makes of the hijack, and the connection of the write.
pub data Hijack : Type 0 where
  unsupported refused unwritable hijacked : Hijack

pub data Upgrade : Type 0 where
  upgraded : Bytes → Upgrade
  err : UpgradeError → Upgrade

-- The response that is written to the connection.
unfoldable pub handshake_response : Bytes → Bytes
handshake_response accept_key =
    codes "HTTP/1.1 101 Switching Protocols\r\n"
    ++ (codes "Upgrade: websocket\r\n"
        ++ (codes "Connection: Upgrade\r\n"
            ++ (codes "Sec-WebSocket-Accept: " ++ (accept_key ++ codes "\r\n\r\n"))))

answer : Hijack → Bytes → Upgrade
answer unsupported response = err hijacking_unsupported
answer refused response = err hijack_failed
answer unwritable response = err write_failed
answer hijacked response = upgraded response

unfoldable pub upgrade_websocket : (Bytes → Bytes) → (Bytes → Bytes) → Hijack → Request → Upgrade
unfolding handshake_response answer
upgrade_websocket sha1 base64 outcome r =
    let key = r.header (codes "Sec-WebSocket-Key") in
    if not (text_eq (r.header (codes "Upgrade")) (codes "websocket"))
    then err not_websocket
    else if text_eq key []
    then err missing_key
    else answer outcome
        (handshake_response (base64 (sha1 (key ++ codes "258EAFA5-E914-47DA-95CA-C5AB0DC85B11"))))

-- A handshake succeeds only for a WebSocket request with a key, and the server's own computation of
-- the answer is AcceptKey of the protocol package.
pub upgrade_websocket_lem :
    (sha1 base64 : Bytes → Bytes) (outcome : Hijack) (r : Request) (response : Bytes)
    → upgrade_websocket sha1 base64 outcome r ≡ upgraded response
    → (r.header (codes "Upgrade") ≡ codes "websocket")
      × (r.header (codes "Sec-WebSocket-Key") ≢ [])
      × (response
          ≡ handshake_response (accept_key sha1 base64 (r.header (codes "Sec-WebSocket-Key"))))
unfolding upgrade_websocket accept_key
upgrade_websocket_lem sha1 base64 outcome r response e = ground (
  arith,
  text_eq_iff (r.header (codes "Upgrade")) (codes "websocket"),
  text_eq_iff (r.header (codes "Sec-WebSocket-Key")) [],
)
