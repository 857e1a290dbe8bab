-- ===== src/Socket/System.antt =====
-- The system calls of the socket, and what sendmsg(2) and recvmsg(2) document of them.
use wayland_rs.Common.{ℕ, ◌≤◌, ◌≡◌, List, ◌++◌, length, take, ok, err}
use wayland_rs.Io.{IoError, IoResult}

-- `sendmsg` stands for `send` too, which the code calls when there is no descriptor.
pub record Kernel (Fd : Type 0) : Type 1 where
  pub Sys : Type 0
  pub sendmsg : Sys → List ℕ → List Fd → Sys × IoResult ℕ
  pub recvmsg : Sys → ℕ → Sys × IoResult (List ℕ × List Fd)

-- `sent` and `sent_fds` are what the kernel has taken so far. A call that succeeds takes a prefix of
-- the bytes and all descriptors; one that fails takes nothing. A receive fits the buffer.
pub record IsStream {Fd : Type 0} (k : Kernel Fd) : Type 0 where
  pub sent : k.Sys → List ℕ
  pub sent_fds : k.Sys → List Fd
  pub send_bound :
      (s s' : k.Sys) (bytes : List ℕ) (fds : List Fd) (n : ℕ)
      → k.sendmsg s bytes fds ≡ (s', ok n)
      → n ≤ length bytes
  pub send_ok :
      (s s' : k.Sys) (bytes : List ℕ) (fds : List Fd) (n : ℕ)
      → k.sendmsg s bytes fds ≡ (s', ok n)
      → (sent s' ≡ sent s ++ take n bytes) × (sent_fds s' ≡ sent_fds s ++ fds)
  pub send_err :
      (s s' : k.Sys) (bytes : List ℕ) (fds : List Fd) (x : IoError)
      → k.sendmsg s bytes fds ≡ (s', err x)
      → (sent s' ≡ sent s) × (sent_fds s' ≡ sent_fds s)
  pub recv_bound :
      (s s' : k.Sys) (room : ℕ) (bytes : List ℕ) (fds : List Fd)
      → k.recvmsg s room ≡ (s', ok (bytes, fds))
      → length bytes ≤ room
