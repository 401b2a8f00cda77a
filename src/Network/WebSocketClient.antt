-- ===== src/Network/WebSocketClient.antt =====
-- WebSocketClient of feedhandler/src/net/websocket_client.cpp and
-- feedhandler/include/net/websocket_client.hpp. The url is not used.
use scratch.Prelude.{
  ℤ, pos, negsuc, ltb_ℤ, Option, none, some, Bool, true, false, not, if◌then◌else◌, Bytes, [],
  pos_part, take, ◌∷◌,
}
use scratch.Network.Sockets.{Sockets, is_negative_fd}
use scratch.Views.Split.{until}

pub record WebSocketClient : Type 0 where
  pub socket_fd : ℤ
  pub host : Bytes

unfoldable pub new_client : WebSocketClient
new_client = record { socket_fd = negsuc 0; host = [] }

unfoldable pub is_connected : WebSocketClient → Bool
is_connected c = not (is_negative_fd c.socket_fd)

abbrev crlf : Bytes → Bytes
crlf rest = 13 ∷ 10 ∷ rest

abbrev get_line : Bytes → Bytes
get_line rest =
    b'G'
    ∷ b'E'
    ∷ b'T'
    ∷ b' '
    ∷ b'/'
    ∷ b'w'
    ∷ b's'
    ∷ b'/'
    ∷ b'b'
    ∷ b't'
    ∷ b'c'
    ∷ b'u'
    ∷ b's'
    ∷ b'd'
    ∷ b't'
    ∷ b'@'
    ∷ b't'
    ∷ b'r'
    ∷ b'a'
    ∷ b'd'
    ∷ b'e'
    ∷ b' '
    ∷ b'H'
    ∷ b'T'
    ∷ b'T'
    ∷ b'P'
    ∷ b'/'
    ∷ b'1'
    ∷ b'.'
    ∷ b'1'
    ∷ crlf rest

abbrev host_line : Bytes → Bytes
host_line rest =
    b'H'
    ∷ b'o'
    ∷ b's'
    ∷ b't'
    ∷ b':'
    ∷ b' '
    ∷ b's'
    ∷ b't'
    ∷ b'r'
    ∷ b'e'
    ∷ b'a'
    ∷ b'm'
    ∷ b'.'
    ∷ b'b'
    ∷ b'i'
    ∷ b'n'
    ∷ b'a'
    ∷ b'n'
    ∷ b'c'
    ∷ b'e'
    ∷ b'.'
    ∷ b'c'
    ∷ b'o'
    ∷ b'm'
    ∷ b':'
    ∷ b'9'
    ∷ b'4'
    ∷ b'4'
    ∷ b'3'
    ∷ crlf rest

abbrev upgrade_line : Bytes → Bytes
upgrade_line rest =
    b'U'
    ∷ b'p'
    ∷ b'g'
    ∷ b'r'
    ∷ b'a'
    ∷ b'd'
    ∷ b'e'
    ∷ b':'
    ∷ b' '
    ∷ b'w'
    ∷ b'e'
    ∷ b'b'
    ∷ b's'
    ∷ b'o'
    ∷ b'c'
    ∷ b'k'
    ∷ b'e'
    ∷ b't'
    ∷ crlf rest

abbrev connection_line : Bytes → Bytes
connection_line rest =
    b'C'
    ∷ b'o'
    ∷ b'n'
    ∷ b'n'
    ∷ b'e'
    ∷ b'c'
    ∷ b't'
    ∷ b'i'
    ∷ b'o'
    ∷ b'n'
    ∷ b':'
    ∷ b' '
    ∷ b'U'
    ∷ b'p'
    ∷ b'g'
    ∷ b'r'
    ∷ b'a'
    ∷ b'd'
    ∷ b'e'
    ∷ crlf rest

abbrev key_line : Bytes → Bytes
key_line rest =
    b'S'
    ∷ b'e'
    ∷ b'c'
    ∷ b'-'
    ∷ b'W'
    ∷ b'e'
    ∷ b'b'
    ∷ b'S'
    ∷ b'o'
    ∷ b'c'
    ∷ b'k'
    ∷ b'e'
    ∷ b't'
    ∷ b'-'
    ∷ b'K'
    ∷ b'e'
    ∷ b'y'
    ∷ b':'
    ∷ b' '
    ∷ b'S'
    ∷ b'G'
    ∷ b'V'
    ∷ b's'
    ∷ b'b'
    ∷ b'G'
    ∷ b'8'
    ∷ b's'
    ∷ b'I'
    ∷ b'H'
    ∷ b'd'
    ∷ b'v'
    ∷ b'c'
    ∷ b'm'
    ∷ b'x'
    ∷ b'k'
    ∷ b'I'
    ∷ b'Q'
    ∷ b'='
    ∷ b'='
    ∷ crlf rest

abbrev version_line : Bytes → Bytes
version_line rest =
    b'S'
    ∷ b'e'
    ∷ b'c'
    ∷ b'-'
    ∷ b'W'
    ∷ b'e'
    ∷ b'b'
    ∷ b'S'
    ∷ b'o'
    ∷ b'c'
    ∷ b'k'
    ∷ b'e'
    ∷ b't'
    ∷ b'-'
    ∷ b'V'
    ∷ b'e'
    ∷ b'r'
    ∷ b's'
    ∷ b'i'
    ∷ b'o'
    ∷ b'n'
    ∷ b':'
    ∷ b' '
    ∷ b'1'
    ∷ b'3'
    ∷ crlf rest

abbrev pub handshake : Bytes
handshake =
    get_line (host_line (upgrade_line (connection_line (key_line (version_line (crlf []))))))

module _ (s : Sockets) where
  open s use {World}

  abbrev pub Result : Type 0 → Type 0
  Result A = WebSocketClient × World × A

  unfoldable pub close : WebSocketClient → World → WebSocketClient × World
  close c w =
      if is_negative_fd c.socket_fd
      then (c, w)
      else (record c { socket_fd = negsuc 0 }, s.close c.socket_fd w)

  abbrev refused : WebSocketClient × World → Result Bool
  refused (c, w) = (c, w, false)

  abbrev connect_to : WebSocketClient → World × ℤ → Result Bool
  connect_to c (w, failed) = if is_negative_fd failed then refused (close c w) else (c, w, true)

  abbrev with_socket : WebSocketClient → s.Address → World × ℤ → Result Bool
  with_socket c address (w, fd) =
      if is_negative_fd fd
      then (record c { socket_fd = fd }, w, false)
      else connect_to (record c { socket_fd = fd }) (s.connect fd address w)

  abbrev resolved : WebSocketClient → World × Option s.Address → Result Bool
  resolved c (w, none) = (c, w, false)
  resolved c (w, some address) = with_socket c address (s.open_socket_for address w)

  unfoldable pub connect_to_feed : Bytes → ℤ → WebSocketClient → World → Result Bool
  unfolding close
  connect_to_feed host port c w = resolved (record c { host = host }) (s.getaddrinfo host port w)

  -- A partial send counts as sent.
  unfoldable pub send_handshake : WebSocketClient → World → Result Bool
  send_handshake c w =
      if is_negative_fd c.socket_fd
      then (c, w, false)
      else (let sent = s.send c.socket_fd handshake w in (c, sent.0, not (is_negative_fd (sent.1))))

  -- The bytes received up to the first zero byte, since they are read back as a C string.
  abbrev received : WebSocketClient → World × Bytes × ℤ → Result Bytes
  received c (w, bytes, n) =
      if ltb_ℤ (pos 0) n then (c, w, until 0 (take (pos_part n) bytes)) else (c, w, [])

  unfoldable pub recv_data : WebSocketClient → World → Result Bytes
  unfolding until
  recv_data c w =
      if is_negative_fd c.socket_fd then (c, w, []) else received c (s.recv c.socket_fd 4095 w)
