-- ===== src/Network/Owned.antt =====
-- The descriptors of TcpClient, feedhandler/src/net/tcp_client.cpp: what it opens it closes.
use scratch.Prelude.{
  ℕ, ℤ, pos, eqb_ℤ, List, [], ◌∷◌, Bool, true, false, Bytes, ◌≡◌, refl, ap, ◌∙◌, arith, Bool-cases,
  Option-cases, inl, inr, sub64,
}
use scratch.Network.Sockets.{Sockets, Descriptors, is_negative_fd, erase, opened}
use scratch.Network.TcpClient.{TcpClient, new_client, connect, send, recv, close, is_unusable}

pub data Call : Type 0 where
  connect_call : Bytes → ℤ → Call
  send_call : Bytes → Call
  recv_call : ℕ → Call
  close_call : Call

module _ (s : Sockets) where
  open s use {World}

  abbrev pub State : Type 0
  State = TcpClient × World

  abbrev without_result : TcpClient × World × Bool → State
  without_result (c, w, done) = (c, w)

  abbrev without_bytes : TcpClient × World × Bytes → State
  without_bytes (c, w, bytes) = (c, w)

  abbrev pub call : Call → State → State
  call (connect_call host port) (c, w) = without_result (connect s host port c w)
  call (send_call bytes) (c, w) = without_result (send s bytes c w)
  call (recv_call max_bytes) (c, w) = without_bytes (recv s max_bytes c w)
  call close_call (c, w) = close s c w

  abbrev pub run : List Call → State → State
  run [] t = t
  run (k ∷ calls) t = run calls (call k t)

  -- Each connect comes when the client has no socket.
  abbrev pub MayCall : Call → TcpClient → Type 0
  MayCall (connect_call host port) c = is_negative_fd c.socket_fd ≡ true
  MayCall _ c = Unit

  abbrev pub ConnectsApart : List Call → State → Type 0
  ConnectsApart [] t = Unit
  ConnectsApart (k ∷ calls) t = MayCall k (t.0) × ConnectsApart calls (call k t)

  module _ (fds : Descriptors s) (base : List ℤ) where
    -- Beside those open before, the socket of the client is open, and no other.
    Owns : State → Type 0
    Owns (c, w) = fds.open_fds w ≡ opened c.socket_fd base

    erase-head : (fd : ℤ) (xs : List ℤ) → erase fd (fd ∷ xs) ≡ xs
    erase-head fd xs = ground arith

    opened_negative : (fd : ℤ) → is_negative_fd fd ≡ true → opened fd base ≡ base
    opened_negative fd e = rw e refl

    opened_other : (fd : ℤ) → is_negative_fd fd ≡ false → opened fd base ≡ fd ∷ base
    opened_other fd e = rw e refl

    closed :
        (fd : ℤ) (w : World)
        → is_negative_fd fd ≡ false
        → fds.open_fds w ≡ opened fd base
        → fds.open_fds (s.close fd w) ≡ base
    closed fd w e h = fds.of_close fd w ∙ ap (erase fd) (h ∙ opened_other fd e) ∙ erase-head fd base

    close-Owns : (c : TcpClient) (w : World) → Owns (c, w) → Owns (close s c w)
    unfolding close Owns
    close-Owns c w h = elim (Bool-cases (is_negative_fd c.socket_fd)) [
      | inl e ↦ rw e h
      | inr e ↦ rw e (closed c.socket_fd w e h)
    ]

    send-Owns :
        (bytes : Bytes) (c : TcpClient) (w : World)
        → Owns (c, w)
        → Owns (without_result (send s bytes c w))
    unfolding send Owns
    send-Owns bytes c w h = elim (Bool-cases (is_unusable c)) [
      | inl e ↦ rw e h
      | inr e ↦ rw e (fds.of_send c.socket_fd bytes w ∙ h)
    ]

    recv-Owns :
        (max_bytes : ℕ) (c : TcpClient) (w : World)
        → Owns (c, w)
        → Owns (without_bytes (recv s max_bytes c w))
    unfolding recv Owns
    recv-Owns max_bytes c w h =
        let got = s.recv c.socket_fd (sub64 max_bytes 1) w in
        let same : fds.open_fds (got.0) ≡ opened c.socket_fd base =
          fds.of_recv c.socket_fd (sub64 max_bytes 1) w ∙ h in
        elim (Bool-cases (is_unusable c)) [
          | inl e ↦ rw e h
          | inr e ↦ rw e (elim (Bool-cases (is_negative_fd (got.2))) [
            | inl n ↦ rw n same
            | inr n ↦ rw n (elim (Bool-cases (eqb_ℤ (got.2) (pos 0))) [
              | inl z ↦ rw z same
              | inr z ↦ rw z same
            ])
          ])
        ]

    -- A connect of a client without a socket keeps the new socket or closes it again.
    connect-Owns :
        (host : Bytes) (port : ℤ) (c : TcpClient) (w : World)
        → Owns (c, w)
        → is_negative_fd c.socket_fd ≡ true
        → Owns (without_result (connect s host port c w))
    unfolding connect Owns
    connect-Owns host port c w h idle =
        let one = s.open_socket w in
        let fd = one.1 in
        let two = s.gethostbyname host (one.0) in
        let none_open : fds.open_fds w ≡ base = h ∙ opened_negative c.socket_fd idle in
        let first : fds.open_fds (one.0) ≡ opened fd base =
          fds.of_open_socket w ∙ ap (opened fd) none_open in
        let named : fds.open_fds (two.0) ≡ opened fd base =
          fds.of_gethostbyname host (one.0) ∙ first in
        elim (Bool-cases (is_negative_fd fd)) [
          | inl e ↦ rw e first
          | inr e ↦ rw e (elim (Option-cases (two.1)) [
            | inl o ↦ rw o (closed fd (two.0) e named)
            | inr (server, o) ↦ rw o (
                let three = s.connect fd (s.address_of server port) (two.0) in
                let tried : fds.open_fds (three.0) ≡ opened fd base =
                  fds.of_connect fd (s.address_of server port) (two.0) ∙ named in
                elim (Bool-cases (is_negative_fd (three.1))) [
                  | inl n ↦ rw n (closed fd (three.0) e tried)
                  | inr n ↦ rw n tried
                ])
          ])
        ]

    call-Owns : (k : Call) (t : State) → Owns t → MayCall k (t.0) → Owns (call k t)
    call-Owns (connect_call host port) (c, w) h m = connect-Owns host port c w h m
    call-Owns (send_call bytes) (c, w) h m = send-Owns bytes c w h
    call-Owns (recv_call max_bytes) (c, w) h m = recv-Owns max_bytes c w h
    call-Owns close_call (c, w) h m = close-Owns c w h

    run-Owns : (calls : List Call) (t : State) → Owns t → ConnectsApart calls t → Owns (run calls t)
    run-Owns [] t h m = h
    run-Owns (k ∷ calls) t h m = run-Owns calls (call k t) (call-Owns k t h (m.0)) (m.1)

    released : (t : State) → Owns t → fds.open_fds ((close s (t.0) (t.1)).1) ≡ base
    unfolding close Owns
    released (c, w) h = elim (Bool-cases (is_negative_fd c.socket_fd)) [
      | inl e ↦ rw e (h ∙ opened_negative c.socket_fd e)
      | inr e ↦ rw e (closed c.socket_fd w e h)
    ]

  -- However the calls of a new client succeed or fail, if each connect comes when the client has no
  -- socket: between calls exactly its own socket is open beside those open before, if it has one,
  -- and after the close that its destructor makes, none. The system is as documented: opening,
  -- closing and nothing else change the open descriptors.
  pub run_releases :
      (fds : Descriptors s) (calls : List Call) (w : World)
      → ConnectsApart calls (new_client, w)
      → (let t = run calls (new_client, w) in
          (fds.open_fds (t.1) ≡ opened ((t.0).socket_fd) (fds.open_fds w))
          × (fds.open_fds ((close s (t.0) (t.1)).1) ≡ fds.open_fds w))
  unfolding new_client Owns
  run_releases fds calls w m =
      let h = run-Owns fds (fds.open_fds w) calls (new_client, w) refl m in
      (h, released fds (fds.open_fds w) (run calls (new_client, w)) h)
