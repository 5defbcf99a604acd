-- ===== src/Examples/EchoServer/Echo.antt =====
-- What the clients of hound/examples/echo_server_reactor.cpp get, and which connections stay.
use my_project.Prelude.{
  ℕ, ◌≡◌, ◌≢◌, ◌≤◌, refl, ap, sym, subst, ◌∙◌, ◌==◌, if◌then◌else◌, Bool, true, false, Option, some,
  List, [], ◌∷◌, ◌++◌, append-nil, append_assoc, map, All, Bytes, length, take, take_all, arith,
}
use my_project.Prelude.FdMap.{find}
use my_project.Examples.EchoServer.{
  EchoServer, refresh_timeout, close_connection, timed_out, echo, on_message, on_close,
}
use my_project.Examples.EchoServer.Handlers.{
  close_connection-Kept, refresh_timeout-Kept, on_message-Kept,
}
use my_project.Examples.EchoServer.Lifecycle.{IsValid, StandsFor, Kept-IsValid, is_some}
use my_project.Examples.EchoServer.Deletion.{close_connection-pending_tasks}

close_connection-closed :
    (a : ℕ) (s : EchoServer) → ((close_connection a s).objects a).closed ≡ true
unfolding close_connection
close_connection-closed a s = ground arith

on_message_closed :
    (write : Bytes → Bool) (now fd a : ℕ) (read : ℕ → Option Bytes) (s : EchoServer)
    → find fd s.connections ≡ some a
    → (s.objects a).closed ≡ true
    → on_message write now fd read s ≡ s
unfolding on_message
on_message_closed write now fd a read s e c = ground (arith, e, c)

-- A connection of a valid server whose timer fires is closed, but its socket stays open, it stays
-- in the map, no deletion is queued, and whatever its client sends then changes nothing.
pub timed_out_stays :
    (write : Bytes → Bool) (now fd a : ℕ) (read : ℕ → Option Bytes) (s : EchoServer)
    → IsValid s
    → find fd s.connections ≡ some a
    → let t = timed_out a s in
      ((t.objects a).closed ≡ true)
      × (find fd t.connections ≡ some a)
      × (t.is_open fd ≡ true)
      × (t.loop.pending_tasks ≡ s.loop.pending_tasks)
      × (on_message write now fd read t ≡ t)
unfolding timed_out
timed_out_stays write now fd a read s v e =
    let k = close_connection-Kept a s in
    let f = ap (find fd) k.same_connections ∙ e in
    let c = close_connection-closed a s in
    (
      c,
      f,
      ap (λ g. g fd) k.same_open ∙ (v.open_ones fd ∙ ap is_some e),
      close_connection-pending_tasks a s,
      on_message_closed write now fd a read (close_connection a s) f c,
    )

-- The descriptor has a connection that is not closed.
abbrev pub IsLive : EchoServer → ℕ → Type 0
IsLive s fd = (a : ℕ) × (find fd s.connections ≡ some a) × ((s.objects a).closed ≡ false)

-- The object of a connection owns the descriptor under which the map has it.
own_fd :
    (s : EchoServer) (fd a : ℕ) → IsValid s → find fd s.connections ≡ some a → (s.objects a).fd ≡ fd
own_fd s fd a v e = (subst (StandsFor s.objects s.next_object fd) e (v.keys fd)).0

refresh_timeout-closed :
    (now a x : ℕ) (s : EchoServer)
    → ((refresh_timeout now a s).objects x).closed ≡ (s.objects x).closed
unfolding refresh_timeout
refresh_timeout-closed now a x s = ground arith

refresh_timeout-echoed : (now a : ℕ) (s : EchoServer) → (refresh_timeout now a s).echoed ≡ s.echoed
unfolding refresh_timeout
refresh_timeout-echoed now a s = refl

module _ (write : Bytes → Bool) where
  -- Messages come one after the other: the time, the descriptor and the bytes of each.
  unfoldable pub receive : List (ℕ × ℕ × Bytes) → EchoServer → EchoServer
  receive [] s = s
  receive ((now, fd, bytes) ∷ ms) s =
      receive ms (on_message write now fd (λ room. some (take room bytes)) s)

  -- A message that fits the buffer of `on_message` and that the system takes back.
  pub record IsShort (m : ℕ × ℕ × Bytes) : Type 0 where
    pub some_bytes : length m.2 ≢ 0
    pub fits : length m.2 ≤ 4095
    pub taken : write m.2 ≡ true

  on_message_live :
      (now fd a : ℕ) (bytes : Bytes) (s : EchoServer)
      → find fd s.connections ≡ some a
      → (s.objects a).closed ≡ false
      → length bytes ≤ 4095
      → on_message write now fd (λ room. some (take room bytes)) s
        ≡ (if length bytes == 0 then on_close fd s else echo write now fd a bytes s)
  unfolding on_message
  on_message_live now fd a bytes s e c h = ground (arith, e, c, take_all 4095 bytes h)

  on_message-echo :
      (now fd a : ℕ) (bytes : Bytes) (s : EchoServer)
      → find fd s.connections ≡ some a
      → (s.objects a).closed ≡ false
      → IsShort (now, fd, bytes)
      → on_message write now fd (λ room. some (take room bytes)) s
        ≡ refresh_timeout now a (record s { echoed = s.echoed ++ ((s.objects a).fd, bytes) ∷ [] })
  unfolding echo
  on_message-echo now fd a bytes s e c h =
      on_message_live now fd a bytes s e c h.fits ∙ ground (arith, h.taken, h.some_bytes)

  refreshed-IsLive :
      (now a fd x : ℕ) (s : EchoServer)
      → find x s.connections ≡ some fd
      → (s.objects fd).closed ≡ false
      → IsLive (refresh_timeout now a s) x
  refreshed-IsLive now a y x s e c =
      let k = refresh_timeout-Kept now a s in
      (y, ap (find x) k.same_connections ∙ e, refresh_timeout-closed now a y s ∙ c)

  refreshed-All :
      (now a : ℕ) (l : List (ℕ × Bytes)) (ms : List (ℕ × ℕ × Bytes)) (s : EchoServer)
      → All (λ m. IsLive s m.1) ms
      → All (λ m. IsLive (refresh_timeout now a (record s { echoed = l })) m.1) ms
  refreshed-All now a l [] s h = tt
  refreshed-All now a l ((t, fd, bytes) ∷ ms) s (live, h) = (
    refreshed-IsLive now a live.0 fd (record s { echoed = l }) live.1 live.2,
    refreshed-All now a l ms s h,
  )

  -- Messages that come at a valid server on connections that are open, in any order, each fitting
  -- the buffer and taken back by the system as a whole, are echoed in the order in which they came,
  -- each to the socket of the descriptor on which it came.
  pub receive-echoed :
      (ms : List (ℕ × ℕ × Bytes)) (s : EchoServer)
      → IsValid s
      → All IsShort ms
      → All (λ m. IsLive s m.1) ms
      → (receive ms s).echoed ≡ s.echoed ++ map (λ m. (m.1, m.2)) ms
  unfolding receive
  receive-echoed [] s v h live = sym (append-nil s.echoed)
  receive-echoed ((now, fd, bytes) ∷ ms) s v (h, hs) (live, lives) =
      let read : ℕ → Option Bytes = λ room. some (take room bytes) in
      let log = s.echoed ++ ((s.objects live.0).fd, bytes) ∷ [] in
      let s' = refresh_timeout now live.0 (record s { echoed = log }) in
      let e : on_message write now fd read s ≡ s' =
        on_message-echo now fd live.0 bytes s live.1 live.2 h in
      let v' : IsValid s' =
        subst IsValid e (
          Kept-IsValid s (on_message write now fd read s) (on_message-Kept write now fd read s)
            v) in
      ap (λ t. (receive ms t).echoed) e
      ∙ receive-echoed ms s' v' hs (refreshed-All now live.0 log ms s lives)
      ∙ ap (λ l. l ++ map (λ m. (m.1, m.2)) ms)
          (refresh_timeout-echoed now live.0 (record s { echoed = log }))
      ∙ append_assoc s.echoed (((s.objects live.0).fd, bytes) ∷ []) (map (λ m. (m.1, m.2)) ms)
      ∙ ap (λ k. s.echoed ++ ((k, bytes) ∷ map (λ m. (m.1, m.2)) ms)) (own_fd s fd live.0 v live.1)
