-- ===== src/Examples/EchoServer/Handlers.antt =====
-- What the handlers of hound/examples/echo_server_reactor.cpp keep of the connections.
use my_project.Prelude.{
  ℕ, ◌≡◌, refl, ◌∙◌, ◌==◌, if◌then◌else◌, Bool, true, false, Option, Option-cases, List, [], ◌∷◌,
  ◌++◌, Bytes, length, inl, inr, arith,
}
use my_project.Prelude.FdMap.{find}
use my_project.Reactor.Poller.{
  Callback, read_callback, write_callback, close_callback, error_callback,
}
use my_project.Examples.EchoServer.{
  EchoServer, refresh_timeout, close_connection, on_close, echo, on_message, call, call_all,
}

-- The map, the open descriptors and the descriptors of the objects stay.
pub record Kept (s t : EchoServer) : Type 0 where
  pub same_connections : t.connections ≡ s.connections
  pub same_open : t.is_open ≡ s.is_open
  pub same_next : t.next_object ≡ s.next_object
  pub same_fds : (x : ℕ) → (t.objects x).fd ≡ (s.objects x).fd

pub Kept-refl : (s : EchoServer) → Kept s s
Kept-refl s = record {
  same_connections = refl;
  same_open = refl;
  same_next = refl;
  same_fds = λ x. refl;
}

pub Kept-trans : (s t u : EchoServer) → Kept s t → Kept t u → Kept s u
Kept-trans s t u k m = record {
  same_connections = m.same_connections ∙ k.same_connections;
  same_open = m.same_open ∙ k.same_open;
  same_next = m.same_next ∙ k.same_next;
  same_fds = λ x. m.same_fds x ∙ k.same_fds x;
}

either-Kept : (b : Bool) (s x y : EchoServer) → Kept s x → Kept s y → Kept s (if b then x else y)
either-Kept true s x y kx ky = kx
either-Kept false s x y kx ky = ky

pub refresh_timeout-Kept : (now a : ℕ) (s : EchoServer) → Kept s (refresh_timeout now a s)
unfolding refresh_timeout
refresh_timeout-Kept now a s = record {
  same_connections = refl;
  same_open = refl;
  same_next = refl;
  same_fds = λ x. ground arith;
}

pub close_connection-Kept : (a : ℕ) (s : EchoServer) → Kept s (close_connection a s)
unfolding close_connection
close_connection-Kept a s = either-Kept (s.objects a).closed s _ _ (Kept-refl s) record {
  same_connections = refl;
  same_open = refl;
  same_next = refl;
  same_fds = λ x. ground arith;
}

pub on_close-Kept : (fd : ℕ) (s : EchoServer) → Kept s (on_close fd s)
unfolding on_close
on_close-Kept fd s = elim (Option-cases (find fd s.connections)) [
  | inl e ↦ rw (e, on_close) (Kept-refl s)
  | inr (a, e) ↦
      let k = close_connection-Kept a s in
      rw (e, on_close)
        record {
          same_connections = k.same_connections;
          same_open = k.same_open;
          same_next = k.same_next;
          same_fds = k.same_fds;
        }
]

module _ (write : Bytes → Bool) (now fd : ℕ) (read : ℕ → Option Bytes) where
  echo-Kept : (a : ℕ) (bytes : Bytes) (s : EchoServer) → Kept s (echo write now fd a bytes s)
  unfolding echo
  echo-Kept a bytes s =
      let k =
        refresh_timeout-Kept now a
          (record s { echoed = s.echoed ++ ((s.objects a).fd, bytes) ∷ [] }) in
      either-Kept (write bytes) s _ _
        record {
          same_connections = k.same_connections;
          same_open = k.same_open;
          same_next = k.same_next;
          same_fds = k.same_fds;
        }
        (on_close-Kept fd s)

  pub on_message-Kept : (s : EchoServer) → Kept s (on_message write now fd read s)
  unfolding on_message
  on_message-Kept s = elim (Option-cases (find fd s.connections)) [
    | inl e ↦ rw (e, on_message) (Kept-refl s)
    | inr (a, e) ↦ elim (Option-cases (read 4095)) [
      | inl q ↦
          rw (e, on_message)
            (rw q (either-Kept (s.objects a).closed s _ _ (Kept-refl s) (on_close-Kept fd s)))
      | inr (bytes, q) ↦
          rw (e, on_message)
            (rw q (
              either-Kept (s.objects a).closed s _ _ (Kept-refl s)
                (either-Kept (length bytes == 0) s _ _ (on_close-Kept fd s) (echo-Kept a bytes s))))
    ]
  ]

  pub call-Kept : (k : Callback) (s : EchoServer) → Kept s (call write now fd read k s)
  unfolding call
  call-Kept read_callback s = on_message-Kept s
  call-Kept write_callback s = Kept-refl s
  call-Kept close_callback s = on_close-Kept fd s
  call-Kept error_callback s = on_close-Kept fd s

  pub call_all-Kept :
      (ks : List Callback) (s : EchoServer) → Kept s (call_all write now fd read ks s)
  unfolding call_all
  call_all-Kept [] s = Kept-refl s
  call_all-Kept (k ∷ ks) s =
      Kept-trans s (call write now fd read k s) _ (call-Kept k s) (call_all-Kept ks _)
