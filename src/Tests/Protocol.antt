-- ===== src/Tests/Protocol.antt =====
-- Frames on concrete bytes.
use rmm.Base.{◌≡◌, refl, [], ◌∷◌, ◌++◌, Bytes, codes, arith}
use rmm.Protocol.Stream.{ok}
use rmm.Protocol.Frame.{op_text, op_binary, read_frame, write_server_frame, write_client_frame}
use rmm.Protocol.Frame.RoundTrip.{read_frame-write_server_frame, read_frame-write_client_frame}

abbrev mask_key : Bytes
mask_key = 17 ∷ 34 ∷ 51 ∷ 68 ∷ []

read_frame-write_server_frame_example :
    read_frame 1000 (write_server_frame op_text (codes "ping") ++ codes "next")
    ≡ ok (record { opcode = op_text; payload = codes "ping" }, codes "next")
read_frame-write_server_frame_example =
    read_frame-write_server_frame 1000 op_text (codes "ping") (codes "next") (omega arith)
      (ground arith) (ground arith)

read_frame-write_client_frame_example :
    read_frame 1000 (write_client_frame mask_key op_binary (codes "data") ++ codes "next")
    ≡ ok (record { opcode = op_binary; payload = codes "data" }, codes "next")
read_frame-write_client_frame_example =
    read_frame-write_client_frame 1000 op_binary mask_key (codes "data") (codes "next")
      (omega arith) refl (ground arith) (ground arith) (ground arith) (ground arith)
