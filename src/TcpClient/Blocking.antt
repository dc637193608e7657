-- ===== src/TcpClient/Blocking.antt =====
-- `Connect`, `WriteAll`, `ReadSome` and `ReadExact` of src/uringtcpclient.cc.
use kim_rpc.Prelude.{
  ℕ, ◌+◌, ◌-◌, Bool, true, false, List, [], ◌∷◌, ◌++◌, Option, none, some, Bytes, codes, ltb, ◌==◌,
  if◌then◌else◌, is_empty, length, take, drop,
}
use kim_rpc.TcpClient.{
  Answer, bytes, Result, ok, err, Call, done, failed, waiting, UringTcpClient, close,
  wait_uring_result,
}

module _ (strerror : ℕ → Bytes) (valid_ip : Bytes → Bool) where
  -- After the socket was made and its address was set. The answer is that of the connect operation.
  abbrev connect_result : UringTcpClient → Result ℕ → Result (Unit {0}) × UringTcpClient
  connect_result c (ok n) = (ok tt, c)
  connect_result c (err e) = (err e, close c)

  unfoldable pub connect_socket :
      Bytes → Answer → UringTcpClient → Result (Unit {0}) × UringTcpClient
  connect_socket ip a c =
      if valid_ip ip
      then (if a.has_sqe
          then connect_result c (wait_uring_result strerror (codes "connect") a)
          else (err (codes "get connect sqe error"), close c))
      else (err (codes "invalid server ip: " ++ ip), close c)

  -- `socket` is the kernel's new descriptor, or none, with its error number.
  unfoldable pub connect :
      Bytes → Option ℕ → ℕ → Answer → UringTcpClient → Result (Unit {0}) × UringTcpClient
  connect ip socket errno a c =
      if c.m_ring_ready
      then (let c' = close c in
          elim socket [
            | none ↦
                (err (codes "create socket error: " ++ strerror errno), record c' { m_fd = none })
            | some fd ↦ connect_socket ip a (record c' { m_fd = some fd })
          ])
      else (err (codes "io_uring queue init error"), c)

  -- The loop of `WriteAll` from `written` on, with the bytes that went out, by the kernel's answers.
  -- The kernel takes no more than it is given.
  unfoldable pub write_loop : List Answer → Bytes → ℕ → Bytes → Call Bytes
  write_loop [] text written out = if ltb written (length text) then waiting else done out
  write_loop (a ∷ as_) text written out =
      let next = λ (n : ℕ). write_loop as_ text (written + n) (out ++ take n (drop written text)) in
      if ltb written (length text)
      then (if a.has_sqe
          then elim (wait_uring_result strerror (codes "send") a) [
            | err e ↦ failed e
            | ok n ↦ elim (n == 0) [
              | true ↦ failed (codes "send error: connection closed")
              | false ↦ next n
            ]
          ]
          else failed (codes "get send sqe error"))
      else done out

  unfoldable pub write_all : List Answer → Bytes → UringTcpClient → Call Bytes
  write_all script text c = elim c.m_fd [
    | none ↦ failed (codes "socket is not connected")
    | some fd ↦ write_loop script text 0 []
  ]

  -- The loop of `ReadExact` for `len` bytes, with what was received. The kernel gives no more than it
  -- is asked for.
  unfoldable pub read_loop : List Answer → ℕ → Bytes → Call Bytes
  read_loop [] len got = if ltb (length got) len then waiting else done got
  read_loop (a ∷ as_) len got =
      let next = read_loop as_ len (got ++ take (len - length got) (bytes a.completion)) in
      if ltb (length got) len
      then (if a.has_sqe
          then elim (wait_uring_result strerror (codes "recv") a) [
            | err e ↦ failed e
            | ok n ↦ elim (n == 0) [
              | true ↦ failed (codes "recv error: connection closed")
              | false ↦ next
            ]
          ]
          else failed (codes "get recv sqe error"))
      else done got

  unfoldable pub read_exact : List Answer → ℕ → UringTcpClient → Call Bytes
  read_exact script len c = elim c.m_fd [
    | none ↦ failed (codes "socket is not connected")
    | some fd ↦ read_loop script len []
  ]

  -- The loop of `ReadSome`: to the end of the stream, 4096 bytes at most a time.
  unfoldable pub read_some_loop : List Answer → Bytes → Call Bytes
  read_some_loop [] out = waiting
  read_some_loop (a ∷ as_) out =
      let next = read_some_loop as_ (out ++ take 4096 (bytes a.completion)) in
      if a.has_sqe
      then elim (wait_uring_result strerror (codes "recv") a) [
        | err e ↦ failed e
        | ok n ↦ elim (n == 0) [
          | true ↦ if is_empty out then failed (codes "recv error: empty response") else done out
          | false ↦ next
        ]
      ]
      else failed (codes "get recv sqe error")

  unfoldable pub read_some : List Answer → UringTcpClient → Call Bytes
  read_some script c = elim c.m_fd [
    | none ↦ failed (codes "socket is not connected")
    | some fd ↦ read_some_loop script []
  ]
