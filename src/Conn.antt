-- ===== src/Conn.antt =====
-- src/connectionmanager.cc and src/include/connectionmanager.h: connection contexts, the table of the
-- active ones and the pool of the idle ones. A context is never freed, so a pointer is its place in
-- `m_allConns`, below `conn_count`, and `conns` is the memory that the pointers share. File
-- descriptors are the kernel's, not negative; `closed` records the calls of `::close`, latest first.
pub mod Invariant
pub mod Aliasing
pub mod Reach
use kim_rpc.Prelude.{
  ℕ, zero, suc, ◌+◌, ◌%◌, ◌^◌, ◌<◌, ◌≡◌, Bool, true, false, ◌&&◌, List, [], ◌∷◌, ◌++◌, Option, none,
  some, Bytes, ◌==◌, if◌then◌else◌, ℤ, pos, negsuc, inc, dec, is_zero,
}

pub record ConnectionContext : Type 0 where
  pub fd : ℕ
  pub conn_id : ℕ
  pub input : Bytes
  pub out_queue : List Bytes
  pub written : ℕ
  pub sending : Bool
  pub inflight : ℤ
  pub closing : Bool
  pub pending_reqs : ℤ
  pub read_paused : Bool

-- A pointer, and the memory.
abbrev pub Ptr : Type 0
Ptr = ℕ

pub record ConnectionManager : Type 0 where
  pub active : ℕ → Option Ptr
  pub conns : Ptr → ConnectionContext
  pub conn_count : ℕ
  pub idle_pool : List Ptr
  pub next_id : ℕ
  pub closed : List ℕ

-- `m[k] = v`, and `m.erase(k)` with `none`.
abbrev pub update {ℓ} : {A : Type ℓ} → (ℕ → A) → ℕ → A → ℕ → A
update f k v j = if k == j then v else f j

unfoldable pub reset : ℕ → ConnectionContext → ConnectionContext
reset newfd c = record c {
  fd = newfd;
  input = [];
  out_queue = [];
  written = 0;
  sending = false;
  inflight = pos 0;
  closing = false;
  pending_reqs = pos 0;
  read_paused = false;
}

-- A new context, before `reset`; its id is assigned right after.
abbrev pub blank : ConnectionContext
blank = record {
  fd = 0;
  conn_id = 0;
  input = [];
  out_queue = [];
  written = 0;
  sending = false;
  inflight = pos 0;
  closing = false;
  pending_reqs = pos 0;
  read_paused = false;
}

unfoldable pub new_manager : ConnectionManager
new_manager = record {
  active = λ fd. none;
  conns = λ p. blank;
  conn_count = 0;
  idle_pool = [];
  next_id = 1;
  closed = [];
}

unfoldable pub modify :
    Ptr → (ConnectionContext → ConnectionContext) → ConnectionManager → ConnectionManager
modify p f m = record m { conns = update m.conns p (f (m.conns p)) }

-- The end of `acquire`: the context at `p` gets a fresh id and is entered under `fd`.
unfoldable pub enter : ℕ → Ptr → ConnectionManager → Ptr × ConnectionManager
unfolding reset
enter fd p m = (
  p,
  record m {
    active = update m.active fd (some p);
    conns = update m.conns p (record (reset fd (m.conns p)) { conn_id = m.next_id });
    next_id = (m.next_id + 1) % 2 ^ 64;
  },
)

-- The back of the pool vector is the head of the list.
abbrev pub acquire_from : List Ptr → ℕ → ConnectionManager → Ptr × ConnectionManager
acquire_from [] fd m = enter fd m.conn_count (record m { conn_count = suc m.conn_count })
acquire_from (p ∷ rest) fd m = enter fd p (record m { idle_pool = rest })

unfoldable pub acquire : ℕ → ConnectionManager → Ptr × ConnectionManager
unfolding enter
acquire fd m = acquire_from m.idle_pool fd m

unfoldable pub find : ℕ → ConnectionManager → Option Ptr
find fd m = m.active fd

unfoldable pub on_submit : Ptr → ConnectionManager → ConnectionManager
unfolding modify
on_submit p m = modify p (λ c. record c { inflight = inc c.inflight }) m

unfoldable pub recycle : Ptr → ConnectionManager → ConnectionManager
recycle p m = record m { idle_pool = p ∷ m.idle_pool }

-- `onComplete` on a context; `true`: it was recycled.
unfoldable pub complete : Ptr → ConnectionManager → Bool × ConnectionManager
unfolding recycle modify
complete p m =
    let m' = modify p (λ c. record c { inflight = dec c.inflight }) m in
    if (m'.conns p).closing && is_zero (m'.conns p).inflight
    then (true, recycle p m')
    else (false, m')

-- `none` is the null pointer of an accept or a notification.
unfoldable pub on_complete : Option Ptr → ConnectionManager → Bool × ConnectionManager
unfolding complete
on_complete none m = (false, m)
on_complete (some p) m = complete p m

unfoldable pub close_at : ℕ → Ptr → ConnectionManager → ConnectionManager
unfolding recycle modify
close_at fd p m =
    let m' =
      modify p (λ c. record c { closing = true })
        (record m { active = update m.active fd none; closed = (m.conns p).fd ∷ m.closed }) in
    if is_zero (m'.conns p).inflight then recycle p m' else m'

abbrev pub close_found : Option Ptr → ℕ → ConnectionManager → ConnectionManager
close_found none fd m = m
close_found (some p) fd m = close_at fd p m

unfoldable pub close : ℕ → ConnectionManager → ConnectionManager
unfolding close_at
close fd m = close_found (m.active fd) fd m
