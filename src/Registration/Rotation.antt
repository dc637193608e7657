-- ===== src/Registration/Rotation.antt =====
-- The addresses that `GetRpcAddress` gives one after the other for one method.
use kim_rpc.Prelude.{
  ℕ, zero, suc, ◌+◌, ◌%◌, ◌^◌, ◌<◌, ◌≡◌, refl, ap, ◌∙◌, true, List, [], ◌∷◌, ◌++◌, Option, none,
  some, arith, inl, inr, Bytes, bytes_eq, bytes_eq_iff, bytes_eq_refl, codes, length, lookup,
  get_or, ℤ, Bool-cases,
}
use kim_rpc.Etcd.Client.{KeyValue}
use kim_rpc.Discovery.{
  Cache, MethodEntry, Address, found, contains, seed, pick, replace, get_rpc_address,
}
use kim_rpc.Discovery.RoundRobin.{after_picks, pick-found, after-entry}

-- The answer of the call after `n` others, with no event of a watch in between.
pub ask : (Bytes → Option (List KeyValue × ℤ)) → Bytes → ℕ → Cache → Address
ask range path zero c = (get_rpc_address range path c).0
ask range path (suc n) c = ask range path n (get_rpc_address range path c).1

lookup-replace :
    (path : Bytes) (e d : MethodEntry) (m : List (Bytes × MethodEntry))
    → lookup path m ≡ some d
    → lookup path (replace path e m) ≡ some e
unfolding lookup replace
lookup-replace path e d [] h = cc
lookup-replace path e d ((k, x) ∷ m) h = elim (Bool-cases (bytes_eq k path)) [
  | inl y ↦ rw y (rw y refl)
  | inr n ↦ rw n (rw n (lookup-replace path e d m (ground (arith, n, h))))
]

-- A method that is in the table: its entry is asked, and stays there with its cursor moved on.
known-method :
    (range : Bytes → Option (List KeyValue × ℤ)) (path : Bytes) (e : MethodEntry) (c : Cache)
    → c.etcd_ok ≡ true
    → lookup path c.entries ≡ some e
    → ((get_rpc_address range path c).0 ≡ (pick path e).0)
      × ((get_rpc_address range path c).1.etcd_ok ≡ true)
      × (lookup path (get_rpc_address range path c).1.entries ≡ some (pick path e).1)
unfolding get_rpc_address
known-method range path e c ok h =
    let r = lookup-replace path (pick path e).1 e c.entries h in
    (ground (arith, ok, h), ground (arith, ok, h), ground (arith, ok, h, r))

ask-known :
    (range : Bytes → Option (List KeyValue × ℤ)) (path : Bytes) (n : ℕ) (e : MethodEntry)
    (c : Cache)
    → c.etcd_ok ≡ true
    → lookup path c.entries ≡ some e
    → ask range path n c ≡ (pick path (after_picks n path e)).0
unfolding ask after_picks
ask-known range path zero e c ok h = (known-method range path e c ok h).0
ask-known range path (suc n) e c ok h =
    let k = known-method range path e c ok h in
    ask-known range path n (pick path e).1 (get_rpc_address range path c).1 k.1 k.2

-- The first question for a method makes its entry of what etcd answers.
first-method :
    (range : Bytes → Option (List KeyValue × ℤ)) (path : Bytes) (kvs : List KeyValue) (rev : ℤ)
    (c : Cache)
    → c.etcd_ok ≡ true
    → lookup path c.entries ≡ none
    → range (path ++ codes "/") ≡ some (kvs, rev)
    → let e : MethodEntry = record { instances = seed (path ++ codes "/") kvs; rr = 0 } in
      ((get_rpc_address range path c).0 ≡ (pick path e).0)
      × ((get_rpc_address range path c).1.etcd_ok ≡ true)
      × (lookup path (get_rpc_address range path c).1.entries ≡ some (pick path e).1)
unfolding get_rpc_address replace lookup
first-method range path kvs rev c ok h r = (
  ground (arith, ok, h, r),
  ground (arith, ok, h, r),
  ground (arith, ok, h, r, bytes_eq_refl path),
)

ask-first :
    (range : Bytes → Option (List KeyValue × ℤ)) (path : Bytes) (kvs : List KeyValue) (rev : ℤ)
    (n : ℕ) (c : Cache)
    → c.etcd_ok ≡ true
    → lookup path c.entries ≡ none
    → range (path ++ codes "/") ≡ some (kvs, rev)
    → ask range path n c
      ≡ (pick path
          (after_picks n path (record { instances = seed (path ++ codes "/") kvs; rr = 0 }))).0
unfolding ask after_picks
ask-first range path kvs rev zero c ok h r = (first-method range path kvs rev c ok h r).0
ask-first range path kvs rev (suc n) c ok h r =
    let e : MethodEntry = record { instances = seed (path ++ codes "/") kvs; rr = 0 } in
    let k = first-method range path kvs rev c ok h r in
    ask-known range path n (pick path e).1 (get_rpc_address range path c).1 k.1 k.2

-- Where an address stands.
place :
    (a : Bytes) (xs : List Bytes)
    → contains a xs ≡ true
    → (n : ℕ) × (n < length xs) × (get_or xs n [] ≡ a)
unfolding contains
place a [] h = cc
place a (x ∷ xs) h = elim (Bool-cases (bytes_eq x a)) [
  | inl e ↦ (0, omega arith, (bytes_eq_iff x a).0 e)
  | inr e ↦ let (n, l, g) = place a xs (ground (arith, e, h)) in (suc n, omega (arith, l), g)
]

small_mod : (n k : ℕ) → n < k → n % k ≡ n
small_mod n k h = grind arith

-- Of a method that is asked for the first time, each instance that etcd holds is given within as many
-- calls as there are instances.
pub ask-reaches :
    (range : Bytes → Option (List KeyValue × ℤ)) (path a : Bytes) (kvs : List KeyValue) (rev : ℤ)
    (c : Cache)
    → c.etcd_ok ≡ true
    → lookup path c.entries ≡ none
    → range (path ++ codes "/") ≡ some (kvs, rev)
    → contains a (seed (path ++ codes "/") kvs) ≡ true
    → length (seed (path ++ codes "/") kvs) < 2 ^ 64
    → (n : ℕ) × (n < length (seed (path ++ codes "/") kvs)) × (ask range path n c ≡ found a)
ask-reaches range path a kvs rev c ok h r there few =
    let xs = seed (path ++ codes "/") kvs in
    let e : MethodEntry = record { instances = xs; rr = 0 } in
    let (n, l, g) = place a xs there in
    let (i, q) = after-entry n path e (omega (arith, l)) (omega (arith, l, few)) in
    let p =
      pick-found path (after_picks n path e) (rw i (omega (arith, l)))
        (rw q (omega (arith, l, few))) in
    let cursor : (after_picks n path e).rr % length (after_picks n path e).instances ≡ n =
      rw (i, q)
        (ap (λ (k : ℕ). k % length xs) {x = 0 + n} {y = n} (omega arith)
          ∙ small_mod n (length xs) l) in
    (
      n,
      l,
      ask-first range path kvs rev n c ok h r
          ∙ p.0
          ∙ ap (λ (k : ℕ). found (get_or (after_picks n path e).instances k [])) cursor
          ∙ ap (λ (ys : List Bytes). found (get_or ys n [])) i
          ∙ ap found g,
    )
