-- ===== src/Socket/Backoff.antt =====
-- The delays between attempts to reconnect.
use jolyne.Base.{ℕ, zero, suc, ◌*◌, ◌^◌, ◌≤◌, min, ◌≡◌, refl, arith}
use native.Mathlib.Nat.{pow-suc}
use jolyne.Socket.{backoff}

one-le-pow : (a : ℕ) → 1 ≤ 2 ^ a
one-le-pow zero = omega arith
one-le-pow (suc a) = omega (arith, pow-suc 2 a, one-le-pow a)

-- The first delay is a second; each delay is twice the one before it, until it stays at 16 s.
pub backoff-suc : (a : ℕ) → (backoff 0 ≡ 1000) × (backoff (suc a) ≡ min (2 * backoff a) 16000)
unfolding backoff
backoff-suc a = (refl, omega (arith, pow-suc 2 a))

pub backoff_bounds : (a : ℕ) → (1000 ≤ backoff a) × (backoff a ≤ 16000)
unfolding backoff
backoff_bounds a = (omega (arith, one-le-pow a), omega arith)
