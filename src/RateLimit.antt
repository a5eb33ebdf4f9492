-- ===== src/RateLimit.antt =====
-- app/infra/rate_limit: the policies, the token bucket that Redis keeps for each key, and what a
-- route answers. The numbers of the script and of Python are floats, a parameter; the identity of a
-- caller is only a key here, and the expiry of idle buckets is left out.
pub mod Buckets
use operations_management.Base.{
  ℕ, zero, suc, ◌≡◌, Bool, true, false, ◌⊎◌, not, ◌&&◌, Option, none, some, List, [], ◌∷◌, map, leb,
  if◌then◌else◌,
}
use operations_management.Redis.{Link}
use operations_management.Text.{Text, text_eq}
use operations_management.Table.{first}

-- Literals such as `1 / 30`, integers, arithmetic, `x <= y`, and `floor` and `ceil` of what is not
-- negative.
pub record Floats (F : Type 0) : Type 0 where
  pub ratio : ℕ → ℕ → F
  pub of_int : ℕ → F
  pub plus : F → F → F
  pub minus : F → F → F
  pub times : F → F → F
  pub over : F → F → F
  pub at_most : F → F → Bool
  pub floor : F → ℕ
  pub ceil : F → ℕ

-- What holds of floats that are no NaN, rounded as they are: the order is total and transitive,
-- integers are not negative, a product of what is not negative is not, a sum is not below its first
-- part, and a difference lies between zero and its first part where it takes off no more.
pub record Laws {F : Type 0} (fl : Floats F) : Type 0 where
  pub total : (x y : F) → (fl.at_most x y ≡ true) ⊎ (fl.at_most y x ≡ true)
  pub chain : (x y z : F) → fl.at_most x y ≡ true → fl.at_most y z ≡ true → fl.at_most x z ≡ true
  pub int_least : (n : ℕ) → fl.at_most (fl.of_int 0) (fl.of_int n) ≡ true
  pub product :
      (x y : F)
      → fl.at_most (fl.of_int 0) x ≡ true
      → fl.at_most (fl.of_int 0) y ≡ true
      → fl.at_most (fl.of_int 0) (fl.times x y) ≡ true
  pub sum : (x y : F) → fl.at_most (fl.of_int 0) y ≡ true → fl.at_most x (fl.plus x y) ≡ true
  pub rest : (x y : F) → fl.at_most y x ≡ true → fl.at_most (fl.of_int 0) (fl.minus x y) ≡ true
  pub less : (x y : F) → fl.at_most (fl.of_int 0) y ≡ true → fl.at_most (fl.minus x y) x ≡ true

abbrev pub login_name : Text
login_name = b'l' ∷ b'o' ∷ b'g' ∷ b'i' ∷ b'n' ∷ []

abbrev pub register_name : Text
register_name = b'r' ∷ b'e' ∷ b'g' ∷ b'i' ∷ b's' ∷ b't' ∷ b'e' ∷ b'r' ∷ []

abbrev pub password_reset_name : Text
password_reset_name =
    b'p' ∷ b'a' ∷ b's' ∷ b's' ∷ b'w' ∷ b'o' ∷ b'r' ∷ b'd' ∷ b'_' ∷ b'r' ∷ b'e' ∷ b's' ∷ b'e' ∷ b't'
    ∷ []

abbrev pub token_refresh_name : Text
token_refresh_name =
    b't' ∷ b'o' ∷ b'k' ∷ b'e' ∷ b'n' ∷ b'_' ∷ b'r' ∷ b'e' ∷ b'f' ∷ b'r' ∷ b'e' ∷ b's' ∷ b'h' ∷ []

abbrev pub assistant_name : Text
assistant_name = b'a' ∷ b's' ∷ b's' ∷ b'i' ∷ b's' ∷ b't' ∷ b'a' ∷ b'n' ∷ b't' ∷ []

abbrev pub default_name : Text
default_name = b'd' ∷ b'e' ∷ b'f' ∷ b'a' ∷ b'u' ∷ b'l' ∷ b't' ∷ []

module _ (F : Type 0) where
  pub record RateLimitPolicy : Type 0 where
    pub name : Text
    pub capacity : ℕ
    pub refill_per_second : F

  -- An override of the settings; a missing or zero value keeps the default.
  pub record Override : Type 0 where
    pub name : Text
    pub capacity : Option ℕ
    pub refill_per_second : Option F

  pub record Bucket : Type 0 where
    pub tokens : F
    pub ts : F

  pub record Decision : Type 0 where
    pub allowed : Bool
    pub remaining : F
    pub retry_after : F

module _ {F : Type 0} (fl : Floats F) where
  -- `override.capacity or capacity`
  abbrev pub int_or : Option ℕ → ℕ → ℕ
  int_or none n = n
  int_or (some zero) n = n
  int_or (some (suc k)) n = suc k

  -- `override.refill_per_second or refill`
  abbrev pub float_or : Option F → F → F
  float_or none x = x
  float_or (some y) x = if fl.at_most y (fl.of_int 0) && fl.at_most (fl.of_int 0) y then x else y

  abbrev pub default_policy : RateLimitPolicy F
  default_policy = record { name = default_name; capacity = 120; refill_per_second = fl.ratio 20 1 }

  -- `_DEFAULTS`
  abbrev pub defaults : List (RateLimitPolicy F)
  defaults =
      record { name = login_name; capacity = 5; refill_per_second = fl.ratio 1 10 }
      ∷ record { name = register_name; capacity = 5; refill_per_second = fl.ratio 1 10 }
      ∷ record { name = password_reset_name; capacity = 3; refill_per_second = fl.ratio 1 20 }
      ∷ record { name = token_refresh_name; capacity = 30; refill_per_second = fl.ratio 1 1 }
      ∷ record { name = assistant_name; capacity = 10; refill_per_second = fl.ratio 1 30 }
      ∷ default_policy
      ∷ []

  abbrev pub overridden : Option (Override F) → RateLimitPolicy F → RateLimitPolicy F
  overridden none p = p
  overridden (some o) p = record p {
    capacity = int_or o.capacity p.capacity;
    refill_per_second = float_or o.refill_per_second p.refill_per_second;
  }

  -- `_build`: a default under the override of its name.
  abbrev pub built : List (Override F) → RateLimitPolicy F → RateLimitPolicy F
  built overrides p = overridden (first (λ o. text_eq o.name p.name) overrides) p

  -- `POLICIES.get(name)` and `POLICIES["default"]`
  abbrev pub policy_or_default : List (Override F) → Option (RateLimitPolicy F) → RateLimitPolicy F
  policy_or_default overrides none = built overrides default_policy
  policy_or_default overrides (some p) = p

  unfoldable pub get_policy : Text → List (Override F) → RateLimitPolicy F
  get_policy name overrides =
      policy_or_default overrides
        (first (λ p. text_eq p.name name) (map (built overrides) defaults))

  -- A bucket that is not there is full; one that is there fills up with the time that has passed.
  abbrev pub elapsed : F → F → F
  elapsed now ts =
      let passed = fl.minus now ts in
      if fl.at_most (fl.of_int 0) passed then passed else fl.of_int 0

  abbrev pub min : F → F → F
  min x y = if fl.at_most x y then x else y

  abbrev pub state_or_full : RateLimitPolicy F → F → Option (Bucket F) → Bucket F
  state_or_full p now none = record { tokens = fl.of_int p.capacity; ts = now }
  state_or_full p now (some b) = b

  unfoldable pub refilled : RateLimitPolicy F → F → Option (Bucket F) → F
  refilled p now stored =
      let b = state_or_full p now stored in
      min (fl.of_int p.capacity)
        (fl.plus b.tokens (fl.times (elapsed now b.ts) p.refill_per_second))

  -- The end of the script: the tokens, whether the request is let through, and the wait.
  abbrev pub take_tokens : Bool → RateLimitPolicy F → F → F → F → Decision F × Bucket F
  take_tokens true p now cost tokens = (
    record { allowed = true; remaining = fl.minus tokens cost; retry_after = fl.of_int 0 },
    record { tokens = fl.minus tokens cost; ts = now },
  )
  take_tokens false p now cost tokens = (
    record {
      allowed = false;
      remaining = tokens;
      retry_after = fl.over (fl.minus cost tokens) p.refill_per_second;
    },
    record { tokens = tokens; ts = now },
  )

  -- `_CONSUME_LUA`, at the time of Redis.
  unfoldable pub consume_script :
      RateLimitPolicy F → F → ℕ → Option (Bucket F) → Decision F × Bucket F
  consume_script p now cost stored =
      let tokens = refilled p now stored in
      take_tokens (fl.at_most (fl.of_int cost) tokens) p now (fl.of_int cost) tokens

  -- The hashes in Redis by `build_key`'s two parts, which it joins by colons.
  abbrev pub Buckets : Type 0
  Buckets = Text → Text → Option (Bucket F)

  abbrev pub hset : Text → Text → Bucket F → Buckets → Buckets
  hset name identity b bs n i = if text_eq n name && text_eq i identity then some b else bs n i

  abbrev pub open_decision : RateLimitPolicy F → Decision F
  open_decision p = record {
    allowed = true;
    remaining = fl.of_int p.capacity;
    retry_after = fl.of_int 0;
  }

  unfoldable pub consume : Link → RateLimitPolicy F → Text → F → ℕ → Buckets → Decision F × Buckets
  consume Link.answering p identity now cost bs =
      let (d, b) = consume_script p now cost (bs p.name identity) in (d, hset p.name identity b bs)
  consume _ p identity now cost bs = (open_decision p, bs)

-- What a route goes on with: no check, the headers of a request that passes (limit and remaining), or
-- 429 with its Retry-After.
pub data Verdict : Type 0 where
  unchecked : Verdict
  passes : ℕ → ℕ → Verdict
  too_many : ℕ → Verdict

abbrev pub max : ℕ → ℕ → ℕ
max a b = if leb a b then b else a

module _ {F : Type 0} (fl : Floats F) where
  abbrev pub verdict : RateLimitPolicy F → Decision F → Verdict
  verdict p d =
      if d.allowed
      then Verdict.passes p.capacity (fl.floor d.remaining)
      else Verdict.too_many (max 1 (fl.ceil d.retry_after))

  -- `dependency`, made by `rate_limit(policy_name, cost)`.
  unfoldable pub rate_limit :
      Bool → List (Override F) → Link → Text → ℕ → Text → F → Buckets fl → Verdict × Buckets fl
  rate_limit false overrides link policy_name cost identity now bs = (Verdict.unchecked, bs)
  rate_limit true overrides link policy_name cost identity now bs =
      let p = get_policy fl policy_name overrides in
      let (d, bs') = consume fl link p identity now cost bs in (verdict p d, bs')
