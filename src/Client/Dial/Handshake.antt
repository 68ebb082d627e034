-- ===== src/Client/Dial/Handshake.antt =====
-- cmd/agent/agent.go and cmd/server/websocket.go: the agent accepts the handshake of the server.
use rmm.Base.{
  ℕ, [], ◌∷◌, ◌++◌, Bytes, codes, ◌==◌, text_eq, Bool, true, false, some, ◌≡◌, refl, ap, sym, ◌∙◌,
  append_assoc, arith,
}
use mathlib.Core.List.{reverse, reverse-append}
use rmm.Go.Strings.{newline}
use rmm.Go.Strings.Laws.{Without}
use rmm.Go.Strings.Index.{Without-append}
use rmm.Server.Upgrade.{handshake_response}
use rmm.Client.Dial.{
  read_line, skip_headers, read_handshake, Url, dial_host, dials_tls, dial_web_socket, dialed,
  handshake_request, socket_path,
}

no_end :
    (d : ℕ) (xs : Bytes)
    → (d == 13) ≡ false
    → text_eq (reverse (xs ++ (d ∷ []))) (codes "\r\n") ≡ false
unfolding text_eq
no_end d xs h = rw (reverse-append xs (d ∷ []), h) refl

skip_end :
    (line rest : Bytes)
    → text_eq (reverse (newline ∷ line)) (codes "\r\n") ≡ false
    → skip_headers line (newline ∷ rest) ≡ skip_headers [] rest
unfolding skip_headers
skip_end line rest h = ground (arith, h)

skip_byte :
    (c : ℕ) (line s : Bytes)
    → (c == newline) ≡ false
    → skip_headers line (c ∷ s) ≡ skip_headers (c ∷ line) s
unfolding skip_headers
skip_byte c line s h = ground (arith, h)

-- A line that does not start with a carriage return is skipped; `xs` is what was read of it behind its
-- first byte, the last first.
skip_line :
    (d : ℕ) (xs s rest : Bytes)
    → (d == 13) ≡ false
    → Without newline s
    → skip_headers (xs ++ (d ∷ [])) (s ++ (newline ∷ rest)) ≡ skip_headers [] rest
skip_line d xs [] rest h w = skip_end (xs ++ (d ∷ [])) rest (no_end d (newline ∷ xs) h)
skip_line d xs (c ∷ s) rest h (e, w) =
    skip_byte c (xs ++ (d ∷ [])) (s ++ (newline ∷ rest)) e ∙ skip_line d (c ∷ xs) s rest h w

-- The agent takes the response that the server writes for any accept key of one line, and reads the
-- frames from the byte behind it on.
read_handshake-handshake_response :
    (accept_key rest : Bytes)
    → Without newline accept_key
    → read_handshake (handshake_response accept_key ++ rest) ≡ some rest
unfolding read_handshake handshake_response read_line skip_headers text_eq
read_handshake-handshake_response accept_key rest w =
    let name = reverse (codes "ec-WebSocket-Accept: ") in
    ap (skip_headers (name ++ (b'S' ∷ []))) (
      append_assoc accept_key (codes "\r\n\r\n") rest
      ∙ sym (append_assoc accept_key (codes "\r") (codes "\n\r\n" ++ rest)))
    ∙ skip_line b'S' name (accept_key ++ codes "\r") (codes "\r\n" ++ rest) refl
        (Without-append newline accept_key (codes "\r") w (refl, tt))

-- A dial that connects to a server that answers the handshake leaves what is behind the answer.
pub dial_web_socket-handshake_response :
    (u : Url) (has_config : Bool) (connects : Bytes → Bool → Bool) (key accept_key rest : Bytes)
    → connects (dial_host u) (dials_tls u has_config) ≡ true
    → Without newline accept_key
    → dial_web_socket (some u) has_config connects true key (handshake_response accept_key ++ rest)
      ≡ dialed
          (dial_host u)
          (dials_tls u has_config)
          (handshake_request (socket_path u) (dial_host u) key)
          rest
unfolding dial_web_socket
dial_web_socket-handshake_response u has_config connects key accept_key rest connected line =
    rw (connected, read_handshake-handshake_response accept_key rest line, dial_web_socket) refl
