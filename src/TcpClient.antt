-- ===== src/TcpClient.antt =====
-- src/uringtcpclient.cc: the io_uring TCP client. The kernel's answers are a script: what each
-- operation on the ring meets, in order. `strerror` and `valid_ip` (whether `inet_pton` accepts the
-- text) are parameters.
pub mod Blocking
pub mod Async
pub mod Transfer
pub mod Lifecycle
use kim_rpc.Prelude.{
  ℕ, Bool, true, false, List, [], ◌∷◌, ◌++◌, Option, none, some, Bytes, codes, if◌then◌else◌,
  length, ℤ, pos, negsuc, is_neg, neg_part, pos_part,
}

-- `cqe->res`: an error, the bytes that a receive wrote to the buffer, or the count of another operation.
pub data Completion : Type 0 where
  fails : ℕ → Completion
  gives : Bytes → Completion
  takes : ℕ → Completion

abbrev pub res : Completion → ℤ
res (fails n) = negsuc n
res (gives b) = pos (length b)
res (takes n) = pos n

abbrev pub bytes : Completion → Bytes
bytes (fails n) = []
bytes (gives b) = b
bytes (takes n) = []

-- One operation: whether a slot is free, the results of `io_uring_submit` and `io_uring_wait_cqe`,
-- and the completion.
pub record Answer : Type 0 where
  pub has_sqe : Bool
  pub submit : ℤ
  pub wait : ℤ
  pub completion : Completion

pub data Result (A : Type 0) : Type 0 where
  ok : A → Result A
  err : Bytes → Result A

-- How a blocking call stands: it returned, or it still waits for the kernel.
pub data Call (A : Type 0) : Type 0 where
  done : A → Call A
  failed : Bytes → Call A
  waiting : Call A

pub record UringTcpClient : Type 0 where
  pub m_fd : Option ℕ
  pub m_ring_ready : Bool
  pub closed : List ℕ

unfoldable pub is_connected : UringTcpClient → Bool
is_connected c = elim c.m_fd [ none ↦ false | some fd ↦ true ]

abbrev close_fd : Option ℕ → UringTcpClient → UringTcpClient
close_fd none c = c
close_fd (some fd) c = record c { m_fd = none; closed = fd ∷ c.closed }

unfoldable pub close : UringTcpClient → UringTcpClient
close c = close_fd c.m_fd c

-- The destructor, as far as the socket is concerned.
unfoldable pub destroy : UringTcpClient → UringTcpClient
unfolding close
destroy c = close c

module _ (strerror : ℕ → Bytes) where
  abbrev error_text : Bytes → Bytes → ℤ → Bytes
  error_text op what r = op ++ (what ++ strerror (neg_part r))

  unfoldable pub wait_uring_result : Bytes → Answer → Result ℕ
  wait_uring_result op a =
      if is_neg a.submit
      then err (error_text op (codes " submit error: ") a.submit)
      else if is_neg a.wait
      then err (error_text op (codes " wait cqe error: ") a.wait)
      else if is_neg (res a.completion)
      then err (error_text op (codes " error: ") (res a.completion))
      else ok (pos_part (res a.completion))
