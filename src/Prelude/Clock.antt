-- ===== src/Prelude/Clock.antt =====
-- Times in milliseconds on a uint32_t, which wraps.
use Prim.Native.Nat.{ℕ, ◌+◌, ◌-◌, ◌%◌, ◌^◌}

-- now - since
abbrev pub elapsed : ℕ → ℕ → ℕ
elapsed now since = (now + 2 ^ 32 - since) % 2 ^ 32

-- now + ms
abbrev pub later : ℕ → ℕ → ℕ
later now ms = (now + ms) % 2 ^ 32
