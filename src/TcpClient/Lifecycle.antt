-- ===== src/TcpClient/Lifecycle.antt =====
-- Who closes the client's descriptor.
use kim_rpc.Prelude.{
  ℕ, ◌≡◌, refl, ◌⊎◌, inl, inr, Bool, true, false, some, arith, ◌∷◌, Bytes, codes, ℤ, Bool-cases,
}
use kim_rpc.TcpClient.{
  Answer, Result, ok, err, UringTcpClient, is_connected, close, wait_uring_result,
}
use kim_rpc.TcpClient.Blocking.{connect, connect_socket}
use kim_rpc.TcpClient.Async.{State, refuse, async_connect}

Result-cases : {A : Type 0} (r : Result A) → ((a : A) × (r ≡ ok a)) ⊎ ((e : Bytes) × (r ≡ err e))
Result-cases (ok a) = inl (a, refl)
Result-cases (err e) = inr (e, refl)

connect_socket-closes :
    (strerror : ℕ → Bytes) (valid_ip : Bytes → Bool) (ip : Bytes) (fd : ℕ) (a : Answer)
    (c : UringTcpClient) (e : Bytes)
    → c.m_fd ≡ some fd
    → (connect_socket strerror valid_ip ip a c).0 ≡ err e
    → (is_connected (connect_socket strerror valid_ip ip a c).1 ≡ false)
      × ((connect_socket strerror valid_ip ip a c).1.closed ≡ fd ∷ c.closed)
unfolding connect_socket close is_connected
connect_socket-closes strerror valid_ip ip fd a c e o h =
    elim (Result-cases (wait_uring_result strerror (codes "connect") a)) [
      | inl (n, w) ↦ ground (arith, o, w)
      | inr (x, w) ↦ ground (arith, o, w)
    ]

connect_on_socket :
    (strerror : ℕ → Bytes) (valid_ip : Bytes → Bool) (ip : Bytes) (fd errno : ℕ) (a : Answer)
    (c : UringTcpClient)
    → c.m_ring_ready ≡ true
    → connect strerror valid_ip ip (some fd) errno a c
      ≡ connect_socket strerror valid_ip ip a (record (close c) { m_fd = some fd })
unfolding connect
connect_on_socket strerror valid_ip ip fd errno a c h = ground (arith, h)

-- A `Connect` that fails on a new socket leaves the client unconnected, with that socket closed and,
-- before it, the one that the client had: no descriptor is leaked, whether the address, the queue or
-- the peer is what failed.
pub connect-closes :
    (strerror : ℕ → Bytes) (valid_ip : Bytes → Bool) (ip : Bytes) (fd errno : ℕ) (a : Answer)
    (c : UringTcpClient) (e : Bytes)
    → c.m_ring_ready ≡ true
    → (connect strerror valid_ip ip (some fd) errno a c).0 ≡ err e
    → (is_connected (connect strerror valid_ip ip (some fd) errno a c).1 ≡ false)
      × ((connect strerror valid_ip ip (some fd) errno a c).1.closed ≡ fd ∷ (close c).closed)
connect-closes strerror valid_ip ip fd errno a c e h =
    rw (connect_on_socket strerror valid_ip ip fd errno a c h)
      (connect_socket-closes strerror valid_ip ip fd a (record (close c) { m_fd = some fd }) e refl)

-- An `AsyncConnect` that made a socket and fails: where the address is an IP address, the client is left
-- unconnected and exactly the new socket is closed; where it is none, nothing is closed and the client
-- keeps the socket as its connection, so it is connected after a failure.
pub async_connect-leaks :
    (strerror : ℕ → Bytes) (valid_ip : Bytes → Bool) (ip : Bytes) (fd : ℕ) (has_sqe : Bool)
    (ret : ℤ) (s : State)
    → s.client.m_ring_ready ≡ true
    → (async_connect strerror valid_ip ip (some fd) has_sqe ret s).0 ≡ false
    → let c = (async_connect strerror valid_ip ip (some fd) has_sqe ret s).1.client in
      ((valid_ip ip ≡ true) × (is_connected c ≡ false) × (c.closed ≡ fd ∷ s.client.closed))
      ⊎ ((valid_ip ip ≡ false)
          × (is_connected c ≡ true)
          × (c.m_fd ≡ some fd)
          × (c.closed ≡ s.client.closed))
unfolding async_connect refuse close is_connected
async_connect-leaks strerror valid_ip ip fd has_sqe ret s h f = elim (Bool-cases (valid_ip ip)) [
  | inl v ↦ inl (v, ground (arith, h, f, v), ground (arith, h, f, v))
  | inr v ↦ inr (v, ground (arith, h, v), ground (arith, h, v), ground (arith, h, v))
]
