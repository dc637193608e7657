-- ===== src/Wire/RoundTrip.antt =====
-- Reading numbers and frames back.
use kim_rpc.Prelude.{
  ℕ, zero, suc, ◌/◌, ◌^◌, ◌<◌, ◌≡◌, refl, ap, ◌++◌, Bytes, IsByte, All, arith, length, take, drop,
  take-append, drop-append,
}
use kim_rpc.Wire.{le_bytes, of_le}

pub length-le_bytes : (w v : ℕ) → length (le_bytes w v) ≡ w
unfolding le_bytes
length-le_bytes zero v = refl
length-le_bytes (suc w) v = ap suc (length-le_bytes w (v / 256))

pub le_bytes-IsByte : (w v : ℕ) → All IsByte (le_bytes w v)
unfolding le_bytes
le_bytes-IsByte zero v = tt
le_bytes-IsByte (suc w) v = (omega arith, le_bytes-IsByte w (v / 256))

pub of_le-le_bytes4 : (v : ℕ) → v < 2 ^ 32 → of_le (le_bytes 4 v) ≡ v
unfolding of_le le_bytes
of_le-le_bytes4 v h = omega arith

pub of_le-le_bytes8 : (v : ℕ) → v < 2 ^ 64 → of_le (le_bytes 8 v) ≡ v
unfolding of_le le_bytes
of_le-le_bytes8 v h = omega arith

-- The first `w` bytes of what starts with a `w`-byte number, and the rest.
pub take-le_bytes : (w v : ℕ) (s : Bytes) → take w (le_bytes w v ++ s) ≡ le_bytes w v
take-le_bytes w v s = take-append (le_bytes w v) s w (omega (arith, length-le_bytes w v))

pub drop-le_bytes : (w v : ℕ) (s : Bytes) → drop w (le_bytes w v ++ s) ≡ s
drop-le_bytes w v s = drop-append (le_bytes w v) s w (omega (arith, length-le_bytes w v))
