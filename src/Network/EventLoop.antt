-- ===== src/Network/EventLoop.antt =====
-- EventLoop of feedhandler/src/net/event_loop.cpp and feedhandler/include/net/event_loop.hpp. A set of
-- descriptors is a function, which FD_SET and FD_CLR change at one descriptor, and which has bits for
-- the descriptors from 0 to below FD_SETSIZE. A write at another one goes to memory outside the set,
-- which the source does not prevent and which is undefined: `overrun` records it, and nothing else is
-- said of it. select is a parameter.
use scratch.Prelude.{
  ℤ, pos, ltb_ℤ, eqb_ℤ, ◌+ℤ◌, ◌-ℤ◌, ◌*ℤ◌, div_ℤ, List, [], ◌∷◌, ◌++◌, Bool, true, false, not, ◌&&◌,
  ◌||◌, if◌then◌else◌,
}
use scratch.Network.Sockets.{is_negative_fd, erase}

abbrev pub FdSet : Type 0
FdSet = ℤ → Bool

-- FD_SETSIZE of the system's headers.
abbrev pub fd_setsize : ℤ
fd_setsize = pos 1024

abbrev pub in_fd_set : ℤ → Bool
in_fd_set fd = not (is_negative_fd fd) && ltb_ℤ fd fd_setsize

abbrev pub fd_set : ℤ → Bool → FdSet → FdSet
fd_set sock member fds fd = if in_fd_set sock && eqb_ℤ fd sock then member else fds fd

pub record EventLoop : Type 0 where
  pub readfds : FdSet
  pub max_fd : ℤ
  pub sockets : List ℤ
  pub overrun : Bool

unfoldable pub new_loop : EventLoop
new_loop = record { readfds = λ fd. false; max_fd = pos 0; sockets = []; overrun = false }

unfoldable pub add_socket : ℤ → EventLoop → EventLoop
add_socket sock l = if is_negative_fd sock then l else record {
  readfds = fd_set sock true l.readfds;
  max_fd = if ltb_ℤ l.max_fd sock then sock else l.max_fd;
  sockets = l.sockets ++ sock ∷ [];
  overrun = l.overrun || not (in_fd_set sock);
}

unfoldable pub remove_socket : ℤ → EventLoop → EventLoop
remove_socket sock l = record l {
  readfds = fd_set sock false l.readfds;
  sockets = erase sock l.sockets;
  overrun = l.overrun || not (in_fd_set sock);
}

-- Seconds and microseconds.
unfoldable pub time_of : ℤ → ℤ × ℤ
unfolding ◌-ℤ◌ ◌*ℤ◌
time_of timeout_ms =
    let seconds = div_ℤ timeout_ms 1000 in
    (seconds, (timeout_ms -ℤ seconds *ℤ pos 1000) *ℤ pos 1000)

-- select takes the number of descriptors to look at, the set and the time, and gives its result and
-- the changed set.
abbrev pub Select : Type 0 → Type 0
Select World = ℤ → FdSet → ℤ × ℤ → World → World × ℤ × FdSet

module _ (World : Type 0) (select : Select World) where
  abbrev selected : EventLoop → World × ℤ × FdSet → EventLoop × World × Bool
  selected l (w, activity, test_set) =
      if ltb_ℤ (pos 0) activity then (record l { readfds = test_set }, w, true) else (l, w, false)

  unfoldable pub run_once : ℤ → EventLoop → World → EventLoop × World × Bool
  run_once timeout_ms l w = selected l (select (l.max_fd +ℤ pos 1) l.readfds (time_of timeout_ms) w)

unfoldable pub is_readable : ℤ → EventLoop → Bool
is_readable sock l = l.readfds sock
