-- ===== src/Network/Sockets.antt =====
-- The socket calls of the operating system that feedhandler/src/net makes, as an interface: each takes
-- and gives a state of the system. What recv and send return is their result as a number, negative on
-- an error, and recv also gives the bytes that it stored.
use scratch.Prelude.{
  ℕ, ℤ, pos, ltb_ℤ, eqb_ℤ, List, [], ◌∷◌, Option, Bool, if◌then◌else◌, Bytes, ◌≡◌,
}

pub record Sockets : Type 1 where
  pub World : Type 0
  pub Host : Type 0
  pub Address : Type 0
  pub gethostbyname : Bytes → World → World × Option Host
  pub address_of : Host → ℤ → Address
  pub getaddrinfo : Bytes → ℤ → World → World × Option Address
  pub open_socket : World → World × ℤ
  pub open_socket_for : Address → World → World × ℤ
  pub connect : ℤ → Address → World → World × ℤ
  pub send : ℤ → Bytes → World → World × ℤ
  pub recv : ℤ → ℕ → World → World × Bytes × ℤ
  pub close : ℤ → World → World

abbrev pub is_negative_fd : ℤ → Bool
is_negative_fd fd = ltb_ℤ fd (pos 0)

-- Takes one entry out.
abbrev pub erase : ℤ → List ℤ → List ℤ
erase fd [] = []
erase fd (x ∷ xs) = let rest = x ∷ erase fd xs in if eqb_ℤ x fd then xs else rest

abbrev pub opened : ℤ → List ℤ → List ℤ
opened fd fds = if is_negative_fd fd then fds else fd ∷ fds

-- What the system documents of the descriptors that are open: a call that opens a socket adds the
-- descriptor that it returns, unless that is negative; close takes its argument out; the other calls
-- leave them alone.
pub record Descriptors (s : Sockets) : Type 0 where
  pub open_fds : s.World → List ℤ
  pub of_open_socket :
      (w : s.World) → open_fds ((s.open_socket w).0) ≡ opened ((s.open_socket w).1) (open_fds w)
  pub of_open_socket_for :
      (a : s.Address) (w : s.World)
      → open_fds ((s.open_socket_for a w).0) ≡ opened ((s.open_socket_for a w).1) (open_fds w)
  pub of_close : (fd : ℤ) (w : s.World) → open_fds (s.close fd w) ≡ erase fd (open_fds w)
  pub of_gethostbyname :
      (host : Bytes) (w : s.World) → open_fds ((s.gethostbyname host w).0) ≡ open_fds w
  pub of_getaddrinfo :
      (host : Bytes) (port : ℤ) (w : s.World)
      → open_fds ((s.getaddrinfo host port w).0) ≡ open_fds w
  pub of_connect :
      (fd : ℤ) (a : s.Address) (w : s.World) → open_fds ((s.connect fd a w).0) ≡ open_fds w
  pub of_send :
      (fd : ℤ) (bytes : Bytes) (w : s.World) → open_fds ((s.send fd bytes w).0) ≡ open_fds w
  pub of_recv : (fd : ℤ) (n : ℕ) (w : s.World) → open_fds ((s.recv fd n w).0) ≡ open_fds w
