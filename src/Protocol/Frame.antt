-- ===== src/Protocol/Frame.antt =====
-- internal/protocol/websocket.go: AcceptKey, ReadFrame, WriteServerFrame and WriteClientFrame, and
-- the constants of internal/protocol/message.go. A frame that is written is the slice that the code
-- hands to `conn.Write` in one call; the error of that call is the connection's.
pub mod RoundTrip
pub mod Reading
use rmm.Base.{
  ℕ, zero, suc, ◌+◌, ◌*◌, ◌/◌, ◌%◌, ◌^◌, List, [], ◌∷◌, ◌++◌, Bytes, codes, ltb, ◌==◌,
  if◌then◌else◌, length, get_or, bit_and, bit_or, bit_xor, Bool, not,
}
use rmm.Protocol.Stream.{Outcome, ok, err, panicked, ◌>>=◌, read_full, make_bytes, big_endian}

-- WebSocket opcodes per RFC 6455.
abbrev pub op_continue : ℕ
op_continue = 0

abbrev pub op_text : ℕ
op_text = 1

abbrev pub op_binary : ℕ
op_binary = 2

abbrev pub op_close : ℕ
op_close = 8

abbrev pub op_ping : ℕ
op_ping = 9

abbrev pub op_pong : ℕ
op_pong = 10

-- The first byte of a binary frame's payload.
abbrev pub bin_screen : ℕ
bin_screen = 0x01

abbrev pub bin_file : ℕ
bin_file = 0x02

abbrev pub bin_audio : ℕ
bin_audio = 0x03

abbrev pub ws_guid : Bytes
ws_guid = codes "258EAFA5-E914-47DA-95CA-C5AB0DC85B11"

-- `sha1` and `base64` of the standard library are parameters.
unfoldable pub accept_key : (Bytes → Bytes) → (Bytes → Bytes) → Bytes → Bytes
accept_key sha1 base64 key = base64 (sha1 (key ++ ws_guid))

pub record Frame : Type 0 where
  pub opcode : ℕ
  pub payload : Bytes

-- `payload[i] ^= maskKey[i%4]`, from index `i` on.
unfoldable pub unmask_from : ℕ → Bytes → Bytes → Bytes
unmask_from i mask_key [] = []
unmask_from i mask_key (b ∷ bs) =
    bit_xor b (get_or mask_key (i % 4) 0) ∷ unmask_from (i + 1) mask_key bs

-- The switch on the 7-bit length of the header.
unfoldable pub read_length : ℕ → Bytes → Outcome (ℕ × Bytes)
read_length length r =
    if length == 126
    then (do (ext, r') ← read_full 2 r; ok (big_endian ext, r'))
    else if length == 127
    then (do (ext, r') ← read_full 8 r; ok (big_endian ext, r'))
    else ok (length, r)

unfoldable pub read_mask_key : Bool → Bytes → Outcome (Bytes × Bytes)
read_mask_key masked r = if masked then read_full 4 r else ok ([], r)

unfoldable pub read_payload : ℕ → Bool → ℕ → Bytes → Bytes → Outcome (Bytes × Bytes)
read_payload max_alloc masked length mask_key r = do
  _ ← make_bytes max_alloc length
  (payload, r') ← read_full length r
  ok ((if masked then unmask_from 0 mask_key payload else payload), r')

-- The frame, and the stream behind it. `max_alloc` is the largest slice that `make` allocates.
unfoldable pub read_frame : ℕ → Bytes → Outcome (Frame × Bytes)
read_frame max_alloc r = do
  (header, r₁) ← read_full 2 r
  let opcode = bit_and (get_or header 0 0) 0x0F
  let masked = not (bit_and (get_or header 1 0) 0x80 == 0)
  (length, r₂) ← read_length (bit_and (get_or header 1 0) 0x7F) r₁
  (mask_key, r₃) ← read_mask_key masked r₂
  (payload, r₄) ← read_payload max_alloc masked length mask_key r₃
  ok (record { opcode = opcode; payload = payload }, r₄)

-- `for i := rounds - 1; i >= 0; i-- { append(byte(length>>(i*8))) }`
unfoldable pub length_bytes : ℕ → ℕ → Bytes
length_bytes zero length = []
length_bytes (suc i) length = length / 2 ^ (i * 8) % 256 ∷ length_bytes i length

-- The length field, where `flag` is the mask bit: 0 from the server, 0x80 from a client.
unfoldable pub server_length : ℕ → Bytes
server_length length =
    if ltb length 126
    then length % 256 ∷ []
    else if ltb length 65536
    then 126 ∷ length / 2 ^ 8 % 256 ∷ length % 256 ∷ []
    else 127 ∷ length_bytes 8 length

unfoldable pub write_server_frame : ℕ → Bytes → Bytes
write_server_frame opcode payload = (bit_or 0x80 opcode ∷ server_length (length payload)) ++ payload

unfoldable pub client_length : ℕ → Bytes
client_length length =
    if ltb length 126
    then bit_or (length % 256) 0x80 ∷ []
    else if ltb length 65536
    then bit_or 126 0x80 ∷ length / 2 ^ 8 % 256 ∷ length % 256 ∷ []
    else bit_or 127 0x80 ∷ length_bytes 8 length

-- `frame[off+i] = b ^ maskKey[i&3]`, from index `i` on.
unfoldable pub mask_from : ℕ → Bytes → Bytes → Bytes
mask_from i mask_key [] = []
mask_from i mask_key (b ∷ bs) =
    bit_xor b (get_or mask_key (bit_and i 3) 0) ∷ mask_from (i + 1) mask_key bs

-- `mask_key` is the four bytes that `rand.Read` fills.
unfoldable pub write_client_frame : Bytes → ℕ → Bytes → Bytes
write_client_frame mask_key opcode payload =
    (bit_or 0x80 opcode ∷ client_length (length payload))
    ++ (mask_key ++ mask_from 0 mask_key payload)
