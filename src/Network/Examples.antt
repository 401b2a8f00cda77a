-- ===== src/Network/Examples.antt =====
-- Runs of the network clients and the event loop, feedhandler/src/net.
use scratch.Prelude.{
  ◌+◌, ℤ, pos, negsuc, eqb_ℤ, List, [], ◌∷◌, some, Bool, true, false, ◌&&◌, if◌then◌else◌, length,
  Bytes, ◌≡◌, refl, arith,
}
use scratch.Network.Sockets.{Sockets, Descriptors, erase, opened}
use scratch.Network.TcpClient.{new_client, connect, close}
use scratch.Network.EventLoop.{EventLoop, new_loop, add_socket, run_once, is_readable, Select}
use scratch.Network.Owned.{
  Call, connect_call, send_call, recv_call, ConnectsApart, run, run_releases,
}
use scratch.Network.Watched.{add_call, run_call, GivesPart, AddsNo, run_once_forgets}
use scratch.Network.Watched

-- A system whose state is its list of descriptors: each socket gets the next number, every host is
-- found, a connect succeeds at port 80, two bytes arrive.
abbrev next_fd : List ℤ → ℤ
next_fd fds = pos (length fds + 3)

abbrev small : Sockets
small = record {
  World = List ℤ;
  Host = Bytes;
  Address = ℤ;
  gethostbyname = λ host w. (w, some host);
  address_of = λ host port. port;
  getaddrinfo = λ host port w. (w, some port);
  open_socket = λ w. (next_fd w ∷ w, next_fd w);
  open_socket_for = λ a w. (next_fd w ∷ w, next_fd w);
  connect = λ fd port w. (w, if eqb_ℤ port (pos 80) then pos 0 else negsuc 0);
  send = λ fd bytes w. (w, pos (length bytes));
  recv = λ fd n w. (w, b'h' ∷ b'i' ∷ [], pos 2);
  close = erase;
}

opened_next : (w : List ℤ) → next_fd w ∷ w ≡ opened (next_fd w) w
opened_next w = ground arith

abbrev descriptors : Descriptors small
descriptors = record {
  open_fds = λ w. w;
  of_open_socket = opened_next;
  of_open_socket_for = λ a w. opened_next w;
  of_close = λ fd w. refl;
  of_gethostbyname = λ host w. refl;
  of_getaddrinfo = λ host port w. refl;
  of_connect = λ fd a w. refl;
  of_send = λ fd bytes w. refl;
  of_recv = λ fd n w. refl;
}

-- A connect that fails, one that succeeds, and traffic.
abbrev calls : List Call
calls =
    connect_call [] (pos 81)
    ∷ connect_call [] (pos 80)
    ∷ send_call (b'x' ∷ [])
    ∷ recv_call 1024
    ∷ []

calls-ConnectsApart : ConnectsApart small calls (new_client, [])
unfolding new_client connect
calls-ConnectsApart = (refl, (refl, (tt, (tt, tt))))

run_releases_example :
    (let t = run small calls (new_client, []) in
      (descriptors.open_fds (t.1) ≡ opened ((t.0).socket_fd) (descriptors.open_fds []))
      × (descriptors.open_fds ((close small (t.0) (t.1)).1) ≡ descriptors.open_fds []))
run_releases_example = run_releases small descriptors calls [] calls-ConnectsApart

-- A second connect of a connected client: the first socket stays open behind the close.
lost :
    (close small
      ((run small (connect_call [] (pos 80) ∷ connect_call [] (pos 80) ∷ []) (new_client, [])).0)
      ((run small (connect_call [] (pos 80) ∷ connect_call [] (pos 80) ∷ []) (new_client, [])).1)).1
    ≡ pos 3 ∷ []
unfolding new_client connect close
lost = refl

-- A select at which descriptor 5 alone is ready.
abbrev only_five : Select Unit
only_five n fds time w = (w, pos 1, λ fd. fds fd && eqb_ℤ fd (pos 5))

and_first : (a b : Bool) → (a && b) ≡ true → a ≡ true
and_first true b h = refl
and_first false b h = h

only_five-GivesPart : GivesPart Unit only_five
only_five-GivesPart n fds time w fd h = and_first (fds fd) (eqb_ℤ fd (pos 5)) h

abbrev watching : List Watched.Call
watching = add_call (pos 4) ∷ add_call (pos 5) ∷ run_call (pos 1000) ∷ []

abbrev both : EventLoop
both = add_socket (pos 5) (add_socket (pos 4) new_loop)

-- Descriptor 4, which was not ready in the first round, is never reported.
run_once_forgets_example :
    is_readable
      (pos 4)
      ((Watched.run Unit only_five (run_call (pos 1000) ∷ run_call (pos 1000) ∷ []) (both, tt)).0)
    ≡ false
unfolding new_loop add_socket run_once
run_once_forgets_example =
    run_once_forgets Unit only_five (pos 1000) (pos 4) (run_call (pos 1000) ∷ []) both tt
      only_five-GivesPart refl refl (tt, tt)
