-- ===== src/Discovery/Instances.antt =====
-- The table of instances under the watch events.
use kim_rpc.Prelude.{
  ◌≡◌, refl, Bool, true, false, List, [], ◌∷◌, ◌++◌, arith, Bytes, bytes_eq, bytes_eq_iff, ap, ◌∙◌,
  leb, length, drop, Bool-cases, sym, All, ◌+◌, ℕ, length-append, inl, inr, if◌then◌else◌,
}
use kim_rpc.Discovery.{contains, remove_all, add_instance, change, MethodEntry, on_watch_event}
use kim_rpc.Etcd.Watch.{EventType, put, delete, WatchEvent}

contains-append :
    (a b : Bytes) (xs : List Bytes)
    → contains a (xs ++ (b ∷ [])) ≡ (if contains a xs then true else bytes_eq b a)
unfolding contains
contains-append a b [] = ground arith
contains-append a b (x ∷ xs) = ground (arith, contains-append a b xs)

contains-remove_all :
    (a b : Bytes) (xs : List Bytes)
    → contains a (remove_all b xs) ≡ (if bytes_eq b a then false else contains a xs)
unfolding contains remove_all
contains-remove_all a b [] = ground arith
contains-remove_all a b (x ∷ xs) =
    ground (arith, bytes_eq_iff x b, bytes_eq_iff x a, bytes_eq_iff b a, contains-remove_all a b xs)

contains-add_instance :
    (a b : Bytes) (xs : List Bytes)
    → contains a (add_instance b xs) ≡ (if bytes_eq b a then true else contains a xs)
unfolding add_instance
contains-add_instance a b xs = ground (arith, bytes_eq_iff b a, contains-append a b xs)

-- The events that the watch of a prefix delivers: their keys begin with it.
abbrev pub Watched : Bytes → List WatchEvent → Type 0
Watched prefix = All (λ ev. ev.key ≡ prefix ++ drop (length prefix) ev.key)

-- The verdict of the last event whose key is this one, or `was` where there is none.
pub last_event : Bytes → List WatchEvent → Bool → Bool
last_event key [] was = was
last_event key (ev ∷ evs) was =
    last_event key evs
      (if bytes_eq ev.key key then elim ev.type [ put ↦ true | delete ↦ false ] else was)

unfoldable pub on_watch_events : Bytes → List WatchEvent → MethodEntry → MethodEntry
on_watch_events prefix [] e = e
on_watch_events prefix (ev ∷ evs) e = on_watch_events prefix evs (on_watch_event prefix ev e)

append_cancel : (p xs ys : Bytes) → p ++ xs ≡ p ++ ys → xs ≡ ys
append_cancel [] xs ys e = e
append_cancel (x ∷ p) xs ys e = append_cancel p xs ys (cc)

differ_cons : (b : Bool) → b ≡ true → b ≡ false → ⊥
differ_cons b e f = cc

-- Two keys under a prefix are equal when what follows it is.
under_prefix : (p xs ys : Bytes) → bytes_eq (p ++ xs) (p ++ ys) ≡ bytes_eq xs ys
under_prefix p xs ys = elim (Bool-cases (bytes_eq xs ys)) [
  | inl e ↦
      (bytes_eq_iff (p ++ xs) (p ++ ys)).1 (ap (λ (z : Bytes). p ++ z) ((bytes_eq_iff xs ys).0 e))
      ∙ sym e
  | inr n ↦ elim (Bool-cases (bytes_eq (p ++ xs) (p ++ ys))) [
    | inl e ↦ absurd (
        differ_cons (bytes_eq xs ys)
          ((bytes_eq_iff xs ys).1 (append_cancel p xs ys ((bytes_eq_iff (p ++ xs) (p ++ ys)).0 e)))
          n)
    | inr m ↦ m ∙ sym n
  ]
]

short_none : (d : Bytes) → length d ≡ 0 → (b : ℕ) (a : Bytes) → bytes_eq d (b ∷ a) ≡ false
unfolding bytes_eq
short_none [] e b a = refl
short_none (x ∷ d) e b a = absurd (omega (arith, e))

contains-change :
    (t : EventType) (d a : Bytes) (xs : List Bytes)
    → contains a (change t d xs)
      ≡ (if bytes_eq d a then elim t [ put ↦ true | delete ↦ false ] else contains a xs)
contains-change put d a xs = contains-add_instance a d xs
contains-change delete d a xs = contains-remove_all a d xs

-- What one event makes of an address.
contains-on_watch_event :
    (prefix : Bytes) (ev : WatchEvent) (b : ℕ) (a : Bytes) (e : MethodEntry)
    → ev.key ≡ prefix ++ drop (length prefix) ev.key
    → contains (b ∷ a) (on_watch_event prefix ev e).instances ≡ (
        if bytes_eq ev.key (prefix ++ (b ∷ a))
        then elim ev.type [ put ↦ true | delete ↦ false ]
        else contains (b ∷ a) e.instances)
unfolding on_watch_event
contains-on_watch_event prefix ev b a e k =
    let d = drop (length prefix) ev.key in
    let long : length ev.key ≡ length prefix + length d = ap length k ∙ length-append prefix d in
    let same : bytes_eq ev.key (prefix ++ (b ∷ a)) ≡ bytes_eq d (b ∷ a) =
      ap (λ (z : Bytes). bytes_eq z (prefix ++ (b ∷ a))) k ∙ under_prefix prefix d (b ∷ a) in
    elim (Bool-cases (leb (length ev.key) (length prefix))) [
      | inl s ↦ rw (s, same, short_none d (ground (arith, long, s)) b a) refl
      | inr s ↦ rw (s, same) (contains-change ev.type d (b ∷ a) e.instances)
    ]

-- After any events that the watch of a prefix delivers, an address (not empty) is in the table of the
-- entry exactly when the last event whose key is the prefix followed by the address is a put, or,
-- where none is, when it was there before.
pub on_watch_events-last :
    (prefix : Bytes) (evs : List WatchEvent) (b : ℕ) (a : Bytes) (e : MethodEntry)
    → Watched prefix evs
    → contains (b ∷ a) (on_watch_events prefix evs e).instances
      ≡ last_event (prefix ++ (b ∷ a)) evs (contains (b ∷ a) e.instances)
unfolding on_watch_events last_event
on_watch_events-last prefix [] b a e w = refl
on_watch_events-last prefix (ev ∷ evs) b a e (k, w) =
    on_watch_events-last prefix evs b a (on_watch_event prefix ev e) w
    ∙ ap (last_event (prefix ++ (b ∷ a)) evs) (contains-on_watch_event prefix ev b a e k)

-- No address stands twice in a table.
abbrev pub Distinct : List Bytes → Type 0
Distinct [] = Unit {0}
Distinct (x ∷ xs) = (contains x xs ≡ false) × Distinct xs

append-Distinct :
    (xs : List Bytes) (b : Bytes) → Distinct xs → contains b xs ≡ false → Distinct (xs ++ (b ∷ []))
unfolding contains
append-Distinct [] b d n = (refl, tt)
append-Distinct (x ∷ xs) b (n, d) m = (
  ground (arith, contains-append x b xs, n, bytes_eq_iff x b, bytes_eq_iff b x),
  append-Distinct xs b d (ground (arith, m)),
)

remove_all-Distinct : (b : Bytes) (xs : List Bytes) → Distinct xs → Distinct (remove_all b xs)
unfolding remove_all
remove_all-Distinct b [] d = tt
remove_all-Distinct b (x ∷ xs) (n, d) =
    ground (arith, remove_all-Distinct b xs d, contains-remove_all x b xs)

change-Distinct :
    (t : EventType) (b : Bytes) (xs : List Bytes) → Distinct xs → Distinct (change t b xs)
unfolding add_instance
change-Distinct put b xs d = elim (Bool-cases (contains b xs)) [
  | inl e ↦ rw e d
  | inr e ↦ rw e (append-Distinct xs b d e)
]
change-Distinct delete b xs d = remove_all-Distinct b xs d

-- The watch callback keeps the addresses of an entry distinct, whatever events arrive, also an event
-- that arrives twice; the round-robin cursor stays as it was.
pub on_watch_event-Distinct :
    (prefix : Bytes) (ev : WatchEvent) (e : MethodEntry)
    → Distinct e.instances
    → Distinct (on_watch_event prefix ev e).instances × ((on_watch_event prefix ev e).rr ≡ e.rr)
unfolding on_watch_event
on_watch_event-Distinct prefix ev e d = elim (Bool-cases (leb (length ev.key) (length prefix))) [
  | inl s ↦ rw s (d, refl)
  | inr s ↦ rw s (change-Distinct ev.type (drop (length prefix) ev.key) e.instances d, refl)
]
