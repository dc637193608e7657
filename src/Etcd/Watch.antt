-- ===== src/Etcd/Watch.antt =====
-- The watch stream of src/etcdclient.cc: `parseWatchLine`, `watchWrite` and `WatchPrefixBlocking`. The
-- calls of the callback are recorded in `events`, in their order.
use kim_rpc.Prelude.{
  ℕ, zero, suc, ◌+◌, Bool, false, List, [], ◌∷◌, ◌++◌, Option, none, some, Bytes, codes, bytes_eq,
  if◌then◌else◌, is_empty, find_byte, length, take, drop, to_string, ℤ, pos, inc, dec,
}
use kim_rpc.Etcd.{Json, jint, ltb_ℤ}
use kim_rpc.Etcd.Base64.{b64_encode, b64_decode}
use kim_rpc.Etcd.PrefixEnd.{prefix_end}

pub data EventType : Type 0 where
  put delete : EventType

pub record WatchEvent : Type 0 where
  pub type : EventType
  pub key : Bytes
  pub value : Bytes

pub record WatchCtx : Type 0 where
  pub buf : Bytes
  pub events : List WatchEvent
  pub last_revision : ℤ

module _ (J : Json) where
  open J use {Value}

  -- A field of an event's `kv`, decoded.
  abbrev pub decoded : Bytes → Value → Option Bytes
  decoded field kv = elim (J.string_field field kv) [ none ↦ none | some v ↦ some (b64_decode v) ]

  abbrev pub event_of : EventType → Option Bytes → Option Bytes → Option WatchEvent
  event_of t none v = none
  event_of t (some k) none = none
  event_of t (some k) (some v) = some (record { type = t; key = k; value = v })

  -- One event; without a `type` it is a put, and without a `kv` its texts are empty. `none`: throws.
  unfoldable pub watch_event : Value → Option WatchEvent
  watch_event ev = elim (J.string_field (codes "type") ev) [
    | none ↦ none
    | some type ↦
        let t = if bytes_eq type (codes "DELETE") then delete else put in
        elim (J.find (codes "kv") ev) [
          | none ↦ some (record { type = t; key = []; value = [] })
          | some kv ↦ event_of t (decoded (codes "key") kv) (decoded (codes "value") kv)
        ]
  ]

  abbrev pub called : Option WatchEvent → WatchCtx → Option WatchCtx
  called none ctx = none
  called (some e) ctx = some (record ctx { events = ctx.events ++ (e ∷ []) })

  unfoldable pub handle_events : List Value → WatchCtx → Option WatchCtx
  handle_events [] ctx = some ctx
  handle_events (ev ∷ evs) ctx = elim (called (watch_event ev) ctx) [
    | none ↦ none
    | some ctx' ↦ handle_events evs ctx'
  ]

  -- Only a frame with events moves the revision, and only forward.
  unfoldable pub advance : Value → WatchCtx → WatchCtx
  advance result ctx = elim (J.find (codes "header") result) [
    | none ↦ ctx
    | some header ↦
        let rev = jint J header (codes "revision") (pos 0) in
        if ltb_ℤ ctx.last_revision rev then record ctx { last_revision = rev } else ctx
  ]

  abbrev pub events_of : Value → Option (List Value)
  events_of result = elim (J.find (codes "events") result) [ none ↦ none | some e ↦ J.array? e ]

  abbrev pub advanced : Value → Option WatchCtx → Option WatchCtx
  advanced result none = none
  advanced result (some ctx) = some (advance result ctx)

  -- The frame's `result`. Without events it is passed over.
  unfoldable pub handle_result : Value → WatchCtx → Option WatchCtx
  handle_result result ctx = elim (events_of result) [
    | none ↦ some ctx
    | some evs ↦ advanced result (handle_events evs ctx)
  ]

  -- `none`: an exception leaves the function.
  unfoldable pub parse_watch_line : Bytes → WatchCtx → Option WatchCtx
  parse_watch_line line ctx = elim (J.parse line) [
    | none ↦ some ctx
    | some root ↦ elim (J.find (codes "result") root) [
      | none ↦ some ctx
      | some result ↦ handle_result result ctx
    ]
  ]

  -- A line that is not empty is parsed.
  abbrev pub take_line : Bytes → WatchCtx → Option WatchCtx
  take_line line ctx = if is_empty line then some ctx else parse_watch_line line ctx

  -- The loop over the lines of the buffer, on fuel above its length.
  unfoldable pub lines_loop : ℕ → WatchCtx → Option WatchCtx
  lines_loop zero ctx = none
  lines_loop (suc fuel) ctx = elim (find_byte 10 ctx.buf) [
    | none ↦ some ctx
    | some i ↦ elim (take_line (take i ctx.buf) (record ctx { buf = drop (i + 1) ctx.buf })) [
      | none ↦ none
      | some ctx' ↦ lines_loop fuel ctx'
    ]
  ]

  -- One chunk from the transport: the number of bytes taken, 0 to stop it.
  unfoldable pub watch_write : Bool → Bytes → WatchCtx → Option (ℕ × WatchCtx)
  watch_write stop chunk ctx =
      if stop
      then some (0, ctx)
      else elim (lines_loop (suc (length (ctx.buf ++ chunk)))
          (record ctx { buf = ctx.buf ++ chunk })) [
            | none ↦ none
            | some ctx' ↦ some (length chunk, ctx')
          ]

  -- What one connection delivers.
  unfoldable pub write_all : List Bytes → WatchCtx → Option WatchCtx
  write_all [] ctx = some ctx
  write_all (chunk ∷ chunks) ctx = elim (watch_write false chunk ctx) [
    | none ↦ none
    | some (n, ctx') ↦ write_all chunks ctx'
  ]

  -- One round of `WatchPrefixBlocking`: a connection from `resume_rev` on, and the revision that the
  -- next one starts at. `seen` are the events of the rounds before.
  unfoldable pub session : List Bytes → ℤ → List WatchEvent → Option (ℤ × List WatchEvent)
  session chunks resume_rev seen =
      elim (write_all chunks (record { buf = []; events = seen; last_revision = dec resume_rev })) [
        | none ↦ none
        | some ctx ↦ some (
          if ltb_ℤ ctx.last_revision resume_rev then resume_rev else inc ctx.last_revision,
          ctx.events,
        )
      ]

-- The request of a round.
unfoldable pub create_request : Bytes → ℤ → Bytes
create_request prefix resume_rev =
    codes "{\"create_request\":{\"key\":\""
    ++ (b64_encode prefix
        ++ (codes "\",\"range_end\":\""
            ++ (b64_encode (prefix_end prefix)
                ++ (codes "\",\"start_revision\":" ++ (to_string resume_rev ++ codes "}}")))))
