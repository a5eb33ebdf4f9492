-- ===== src/Assistant/Usage.antt =====
-- app/assistant/usage.py: what a chat costs, and the daily quota of a user in Redis. Python's floats
-- are a parameter; the expiry of old keys is left out.
use Prim.Native.Nat.{◌/◌}
use operations_management.Base.{ℕ, ◌+◌, ◌&&◌, ◌==◌, ltb, if◌then◌else◌}
use operations_management.Redis.{Link}

-- `LLMUsage`
pub record LlmUsage : Type 0 where
  pub input_tokens : ℕ
  pub output_tokens : ℕ
  pub cache_read_input_tokens : ℕ
  pub cache_creation_input_tokens : ℕ

pub record UsageMeter : Type 0 where
  pub input_tokens : ℕ
  pub output_tokens : ℕ
  pub cache_read_input_tokens : ℕ
  pub cache_creation_input_tokens : ℕ

abbrev pub new_meter : UsageMeter
new_meter = record {
  input_tokens = 0;
  output_tokens = 0;
  cache_read_input_tokens = 0;
  cache_creation_input_tokens = 0;
}

abbrev pub add : LlmUsage → UsageMeter → UsageMeter
add u m = record {
  input_tokens = m.input_tokens + u.input_tokens;
  output_tokens = m.output_tokens + u.output_tokens;
  cache_read_input_tokens = m.cache_read_input_tokens + u.cache_read_input_tokens;
  cache_creation_input_tokens = m.cache_creation_input_tokens + u.cache_creation_input_tokens;
}

-- The three weights, and `n * w`, `n + x`, `x + y` and `round(x)` for integers n and floats w, x and y.
pub record Prices (F : Type 0) : Type 0 where
  pub cache_read_weight : F
  pub cache_write_weight : F
  pub output_weight : F
  pub weigh : ℕ → F → F
  pub plus_int : ℕ → F → F
  pub plus : F → F → F
  pub round : F → ℕ

module _ {F : Type 0} (prices : Prices F) where
  abbrev pub cost_units : UsageMeter → ℕ
  cost_units m = prices.round (
      prices.plus
        (prices.plus
          (prices.plus_int m.input_tokens
            (prices.weigh m.cache_read_input_tokens prices.cache_read_weight))
          (prices.weigh m.cache_creation_input_tokens prices.cache_write_weight))
        (prices.weigh m.output_tokens prices.output_weight))

-- A day in the microseconds of a `datetime`; a key is a user and a day.
abbrev pub day_of : ℕ → ℕ
day_of t = t / 86400000000

abbrev pub Counters : Type 0
Counters = ℕ → ℕ → ℕ

unfoldable pub used_today : Link → ℕ → ℕ → Counters → ℕ
used_today Link.answering user_id t counters = counters user_id (day_of t)
used_today _ user_id t counters = 0

-- `INCRBY`
abbrev pub incrby : ℕ → ℕ → ℕ → Counters → Counters
incrby user_id d n counters v e = if v == user_id && e == d then counters v e + n else counters v e

unfoldable pub charge : Link → ℕ → ℕ → ℕ → Counters → Counters
charge Link.answering user_id t cost counters =
    if ltb 0 cost then incrby user_id (day_of t) cost counters else counters
charge _ user_id t cost counters = counters
