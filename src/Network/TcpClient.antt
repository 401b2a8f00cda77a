-- ===== src/Network/TcpClient.antt =====
-- TcpClient of feedhandler/src/net/tcp_client.cpp and feedhandler/include/net/tcp_client.hpp.
use scratch.Prelude.{
  ℕ, zero, suc, ◌-◌, ◌∷◌, ◌++◌, ℤ, pos, negsuc, eqb_ℤ, Option, none, some, Bool, true, false, not,
  ◌||◌, if◌then◌else◌, length, take, Bytes, [], sub64, pos_part,
}
use scratch.Network.Sockets.{Sockets, is_negative_fd}

pub record TcpClient : Type 0 where
  pub socket_fd : ℤ
  pub connected : Bool

abbrev pub no_socket : ℤ
no_socket = negsuc 0

unfoldable pub new_client : TcpClient
new_client = record { socket_fd = no_socket; connected = false }

unfoldable pub is_connected : TcpClient → Bool
is_connected c = not (eqb_ℤ c.socket_fd no_socket)

unfoldable pub zeros : ℕ → Bytes
zeros zero = []
zeros (suc n) = 0 ∷ zeros n

abbrev pub is_unusable : TcpClient → Bool
is_unusable c = not c.connected || is_negative_fd c.socket_fd

module _ (s : Sockets) where
  open s use {World}

  -- The client, the system and the result of a call.
  abbrev pub Result : Type 0 → Type 0
  Result A = TcpClient × World × A

  -- After an error the socket is closed again.
  abbrev given_up : TcpClient → ℤ → World → Result Bool
  given_up c fd w = (record c { socket_fd = no_socket }, s.close fd w, false)

  abbrev connect_to : TcpClient → ℤ → World × ℤ → Result Bool
  connect_to c fd (w, failed) =
      if is_negative_fd failed
      then given_up c fd w
      else (record { socket_fd = fd; connected = true }, w, true)

  abbrev resolved : TcpClient → ℤ → ℤ → World × Option s.Host → Result Bool
  resolved c fd port (w, none) = given_up c fd w
  resolved c fd port (w, some server) = connect_to c fd (s.connect fd (s.address_of server port) w)

  abbrev with_socket : TcpClient → Bytes → ℤ → World × ℤ → Result Bool
  with_socket c host port (w, fd) =
      if is_negative_fd fd
      then (record c { socket_fd = fd }, w, false)
      else resolved c fd port (s.gethostbyname host w)

  unfoldable pub connect : Bytes → ℤ → TcpClient → World → Result Bool
  connect host port c w = with_socket c host port (s.open_socket w)

  -- True only where all bytes were sent.
  unfoldable pub send : Bytes → TcpClient → World → Result Bool
  send bytes c w =
      if is_unusable c
      then (c, w, false)
      else (let sent = s.send c.socket_fd bytes w in
          (
            c,
            sent.0,
            if is_negative_fd (sent.1) then false else eqb_ℤ (sent.1) (pos (length bytes)),
          ))

  -- The buffer has max_bytes zero bytes, of which all but one may be overwritten; it is cut or filled
  -- up to the number of bytes received.
  abbrev received : TcpClient → ℕ → World × Bytes × ℤ → Result Bytes
  received c max_bytes (w, bytes, n) =
      if is_negative_fd n
      then (c, w, [])
      else if eqb_ℤ n (pos 0)
      then (record c { connected = false }, w, [])
      else (c, w, take (pos_part n) (bytes ++ zeros (max_bytes - length bytes)))

  unfoldable pub recv : ℕ → TcpClient → World → Result Bytes
  unfolding zeros
  recv max_bytes c w =
      if is_unusable c
      then (c, w, [])
      else received c max_bytes (s.recv c.socket_fd (sub64 max_bytes 1) w)

  unfoldable pub close : TcpClient → World → TcpClient × World
  close c w =
      if is_negative_fd c.socket_fd
      then (c, w)
      else (record { socket_fd = no_socket; connected = false }, s.close c.socket_fd w)
