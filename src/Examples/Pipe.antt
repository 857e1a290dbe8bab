-- ===== src/Examples/Pipe.antt =====
-- A kernel that takes a given number of bytes at a time, and has some bytes to give.
use wayland_rs.Common.{
  ℕ, zero, suc, ◌+◌, ◌≤◌, ◌≡◌, refl, List, [], ◌∷◌, ◌++◌, arith, ◌==◌, if◌then◌else◌, length, take,
  drop, length-take, ok, err,
}
use wayland_rs.Io.{IoResult, would_block}
use wayland_rs.Socket.System.{Kernel, IsStream}
use wayland_rs.Client.Dispatch.Termination.{IsFinite}

pub record Pipe : Type 0 where
  pub sent : List ℕ
  pub sent_fds : List ℕ
  pub accepts : ℕ
  pub incoming : List ℕ

abbrev pub pipe_send : Pipe → List ℕ → List ℕ → Pipe × IoResult ℕ
pipe_send p bytes fds = if p.accepts == 0 then (p, err would_block) else (
  record p { sent = p.sent ++ take p.accepts bytes; sent_fds = p.sent_fds ++ fds },
  ok (length (take p.accepts bytes)),
)

abbrev pub pipe_receive : Pipe → ℕ → Pipe × IoResult (List ℕ × List ℕ)
pipe_receive p room = (record p { incoming = drop room p.incoming }, ok (take room p.incoming, []))

abbrev pub kernel : Kernel ℕ
kernel = record { Sys = Pipe; sendmsg = pipe_send; recvmsg = pipe_receive }

take-length-take : (n : ℕ) (bytes : List ℕ) → take (length (take n bytes)) bytes ≡ take n bytes
take-length-take zero bytes = refl
take-length-take (suc n) [] = refl
take-length-take (suc n) (b ∷ bytes) = rw (take-length-take n bytes)

pub length-take-le : (n : ℕ) (bytes : List ℕ) → length (take n bytes) ≤ length bytes
length-take-le n bytes = omega (arith, length-take n bytes)

pub law : IsStream kernel
law = record {
  sent = λ p. p.sent;
  sent_fds = λ p. p.sent_fds;
  send_bound = λ s s' bytes fds n h. ground (arith, length-take-le s.accepts bytes);
  send_ok = λ s s' bytes fds n h. (ground (arith, take-length-take s.accepts bytes), ground arith);
  send_err = λ s s' bytes fds x h. (ground arith, ground arith);
  recv_bound = λ s s' room bytes fds h. ground (arith, length-take room s.incoming);
}

abbrev pub dup : ℕ → IoResult ℕ
dup f = ok f

pub length-drop-take :
    (n : ℕ) (bytes : List ℕ) → length (drop n bytes) + length (take n bytes) ≤ length bytes
length-drop-take zero bytes = omega arith
length-drop-take (suc n) [] = omega arith
length-drop-take (suc n) (b ∷ bytes) = omega (arith, length-drop-take n bytes)

unfoldable pub finite : IsFinite kernel
finite = record {
  pending = λ p. length p.incoming;
  recv_less = λ s s' room bytes fds h. ground (arith, length-drop-take room s.incoming);
}
