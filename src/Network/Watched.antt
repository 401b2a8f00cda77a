-- ===== src/Network/Watched.antt =====
-- The watch set of EventLoop, feedhandler/src/net/event_loop.cpp, under any sequence of its calls.
use scratch.Prelude.{
  ℤ, pos, ltb_ℤ, leb_ℤ, eqb_ℤ, ◌+ℤ◌, List, [], ◌∷◌, Bool, true, false, ◌||◌, ◌≡◌, refl, ◌∙◌, arith,
  Bool-cases, inl, inr, All,
}
use scratch.Network.EventLoop.{
  FdSet, EventLoop, add_socket, remove_socket, time_of, Select, run_once, is_readable, fd_setsize,
  in_fd_set,
}

abbrev pub is_listed : ℤ → List ℤ → Bool
is_listed fd [] = false
is_listed fd (x ∷ xs) = eqb_ℤ fd x || is_listed fd xs

-- A watched descriptor was added and has a bit in the set, and select looks at it.
abbrev pub IsWatched : EventLoop → ℤ → Type 0
IsWatched l fd =
    (is_listed fd l.sockets ≡ true) × (in_fd_set fd ≡ true) × (leb_ℤ fd l.max_fd ≡ true)

pub data Call : Type 0 where
  add_call : ℤ → Call
  remove_call : ℤ → Call
  run_call : ℤ → Call

module _ (World : Type 0) (select : Select World) where
  abbrev without_result : EventLoop × World × Bool → EventLoop × World
  without_result (l, w, done) = (l, w)

  abbrev pub call : Call → EventLoop × World → EventLoop × World
  call (add_call sock) (l, w) = (add_socket sock l, w)
  call (remove_call sock) (l, w) = (remove_socket sock l, w)
  call (run_call timeout_ms) (l, w) = without_result (run_once World select timeout_ms l w)

  abbrev pub run : List Call → EventLoop × World → EventLoop × World
  run [] t = t
  run (k ∷ calls) t = run calls (call k t)

  -- What select documents of the set that it gives back: it is a part of the set that it got.
  abbrev pub GivesPart : Type 0
  GivesPart =
      (n : ℤ) (fds : FdSet) (time : ℤ × ℤ) (w : World) (fd : ℤ)
      → (select n fds time w).2 fd ≡ true
      → fds fd ≡ true

  -- Of a descriptor in the watch set of a round, it was watched before.
  run_once-readable :
      (timeout_ms : ℤ) (l : EventLoop) (w : World) (fd : ℤ)
      → GivesPart
      → is_readable fd ((run_once World select timeout_ms l w).0) ≡ true
      → is_readable fd l ≡ true
  unfolding run_once is_readable
  run_once-readable timeout_ms l w fd part h =
      let out = select (l.max_fd +ℤ pos 1) l.readfds (time_of timeout_ms) w in
      elim (Bool-cases (ltb_ℤ (pos 0) (out.1))) [
        | inl e ↦ part (l.max_fd +ℤ pos 1) l.readfds (time_of timeout_ms) w fd (rw e at h)
        | inr e ↦ rw e at h
      ]

  Within : EventLoop → Type 0
  Within l = (fd : ℤ) → is_readable fd l ≡ true → IsWatched l fd

  -- The descriptors that the calls name have a bit in an fd_set; a negative one may be given to
  -- add_socket, which ignores it.
  abbrev pub InSet : Call → Type 0
  InSet (add_call sock) = ltb_ℤ sock fd_setsize ≡ true
  InSet (remove_call sock) = in_fd_set sock ≡ true
  InSet (run_call timeout_ms) = Unit

  -- None of the calls adds the descriptor.
  abbrev pub AddsNo : ℤ → Call → Type 0
  AddsNo fd (add_call sock) = eqb_ℤ fd sock ≡ false
  AddsNo fd (remove_call sock) = Unit
  AddsNo fd (run_call timeout_ms) = Unit

  call-forgets :
      (fd : ℤ) (k : Call) (t : EventLoop × World)
      → GivesPart
      → AddsNo fd k
      → is_readable fd (t.0) ≡ false
      → is_readable fd ((call k t).0) ≡ false
  unfolding is_readable add_socket remove_socket
  call-forgets fd (add_call sock) (l, w) part a h = ground arith
  call-forgets fd (remove_call sock) (l, w) part a h = ground arith
  call-forgets fd (run_call timeout_ms) (l, w) part a h =
      elim (Bool-cases (is_readable fd ((run_once World select timeout_ms l w).0))) [
        | inl e ↦ let r = run_once-readable timeout_ms l w fd part e in cc
        | inr e ↦ e
      ]

  run-forgets :
      (fd : ℤ) (calls : List Call) (t : EventLoop × World)
      → GivesPart
      → All (AddsNo fd) calls
      → is_readable fd (t.0) ≡ false
      → is_readable fd ((run calls t).0) ≡ false
  run-forgets fd [] t part a h = h
  run-forgets fd (k ∷ calls) t part a h =
      run-forgets fd calls (call k t) part (a.1) (call-forgets fd k t part (a.0) h)

  run_once_active :
      (timeout_ms fd : ℤ) (l : EventLoop) (w : World)
      → (run_once World select timeout_ms l w).2 ≡ true
      → is_readable fd ((run_once World select timeout_ms l w).0)
        ≡ (select (l.max_fd +ℤ pos 1) l.readfds (time_of timeout_ms) w).2 fd
  unfolding run_once is_readable
  run_once_active timeout_ms fd l w active =
      let out = select (l.max_fd +ℤ pos 1) l.readfds (time_of timeout_ms) w in
      elim (Bool-cases (ltb_ℤ (pos 0) (out.1))) [
        | inl e ↦ rw e refl
        | inr e ↦ let never : false ≡ true = rw e at active in cc
      ]

  -- A round that reports activity stops watching every descriptor that select left out of its set:
  -- whatever calls follow, no round reports that descriptor as readable again unless it is added
  -- once more. Of select it is assumed that the set it gives back is a part of the set it got.
  pub run_once_forgets :
      (timeout_ms fd : ℤ) (calls : List Call) (l : EventLoop) (w : World)
      → GivesPart
      → (run_once World select timeout_ms l w).2 ≡ true
      → (select (l.max_fd +ℤ pos 1) l.readfds (time_of timeout_ms) w).2 fd ≡ false
      → All (AddsNo fd) calls
      → is_readable fd ((run (run_call timeout_ms ∷ calls) (l, w)).0) ≡ false
  run_once_forgets timeout_ms fd calls l w part active out_of a =
      run-forgets fd calls (call (run_call timeout_ms) (l, w)) part a
        (run_once_active timeout_ms fd l w active ∙ out_of)
