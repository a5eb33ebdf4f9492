-- ===== src/RateLimit/Buckets.antt =====
-- What a rate limit lets through, and that a bucket never holds more than its capacity or less than
-- nothing: app/infra/rate_limit/bucket.py and app/infra/rate_limit/dependencies.py.
use operations_management.Base.{
  ℕ, ◌≤◌, ◌≡◌, refl, Bool, true, false, ◌&&◌, ◌⊎◌, inl, inr, Option, none, some, List, arith,
  Bool-cases, if◌then◌else◌,
}
use operations_management.Redis.{Link, is_answering}
use operations_management.Text.{Text, text_eq, text_eq_refl}
use operations_management.RateLimit.{
  Floats, Laws, RateLimitPolicy, Override, Bucket, get_policy, elapsed, min, state_or_full,
  refilled, take_tokens, consume_script, Buckets, hset, consume, Verdict, max, verdict, rate_limit,
}

module _ {F : Type 0} (fl : Floats F) where
  -- Between nothing and the capacity.
  abbrev pub InRoom : RateLimitPolicy F → Option (Bucket F) → Type 0
  InRoom p none = Unit
  InRoom p (some b) =
      (fl.at_most (fl.of_int 0) b.tokens ≡ true)
      × (fl.at_most b.tokens (fl.of_int p.capacity) ≡ true)

module _ {F : Type 0} (fl : Floats F) (laws : Laws fl) where
  reflexive : (x : F) → fl.at_most x x ≡ true
  reflexive x = elim (laws.total x x) [ inl h ↦ h | inr h ↦ h ]

  min-bounds :
      (z x y : F)
      → fl.at_most z x ≡ true
      → fl.at_most z y ≡ true
      → (fl.at_most z (min fl x y) ≡ true) × (fl.at_most (min fl x y) x ≡ true)
  min-bounds z x y hx hy = elim (Bool-cases (fl.at_most x y)) [
    | inl smaller ↦ rw smaller (hx, reflexive x)
    | inr larger ↦ rw larger (hy, elim (laws.total x y) [ inl h ↦ ground arith | inr h ↦ h ])
  ]

  elapsed-least : (now ts : F) → fl.at_most (fl.of_int 0) (elapsed fl now ts) ≡ true
  elapsed-least now ts = elim (Bool-cases (fl.at_most (fl.of_int 0) (fl.minus now ts))) [
    | inl h ↦ rw h h
    | inr h ↦ rw h (reflexive (fl.of_int 0))
  ]

  full_or_stored :
      (p : RateLimitPolicy F) (now : F) (stored : Option (Bucket F))
      → InRoom fl p stored
      → fl.at_most (fl.of_int 0) (state_or_full fl p now stored).tokens ≡ true
  full_or_stored p now none h = laws.int_least p.capacity
  full_or_stored p now (some b) h = h.0

  refilled-bounds :
      (p : RateLimitPolicy F) (now : F) (stored : Option (Bucket F))
      → fl.at_most (fl.of_int 0) p.refill_per_second ≡ true
      → InRoom fl p stored
      → (fl.at_most (fl.of_int 0) (refilled fl p now stored) ≡ true)
        × (fl.at_most (refilled fl p now stored) (fl.of_int p.capacity) ≡ true)
  unfolding refilled
  refilled-bounds p now stored rate h =
      let b = state_or_full fl p now stored in
      let gain = fl.times (elapsed fl now b.ts) p.refill_per_second in
      let gained =
        laws.product (elapsed fl now b.ts) p.refill_per_second (elapsed-least now b.ts) rate in
      min-bounds (fl.of_int 0) (fl.of_int p.capacity) (fl.plus b.tokens gain)
        (laws.int_least p.capacity)
        (laws.chain (fl.of_int 0) b.tokens (fl.plus b.tokens gain) (full_or_stored p now stored h)
          (laws.sum b.tokens gain gained))

  take_tokens-InRoom :
      (ok : Bool) (p : RateLimitPolicy F) (now tokens : F) (cost : ℕ)
      → fl.at_most (fl.of_int cost) tokens ≡ ok
      → fl.at_most (fl.of_int 0) tokens ≡ true
      → fl.at_most tokens (fl.of_int p.capacity) ≡ true
      → InRoom fl p (some (take_tokens fl ok p now (fl.of_int cost) tokens).1)
  take_tokens-InRoom false p now tokens cost e least most = (least, most)
  take_tokens-InRoom true p now tokens cost e least most = (
    laws.rest tokens (fl.of_int cost) e,
    laws.chain (fl.minus tokens (fl.of_int cost)) tokens (fl.of_int p.capacity)
        (laws.less tokens (fl.of_int cost) (laws.int_least cost)) most,
  )

  module _ (enabled : Bool) (overrides : List (Override F)) (link : Link) (name : Text) (cost : ℕ)
      (identity : Text) (now : F) (bs : Buckets fl) where
    abbrev policy : RateLimitPolicy F
    policy = get_policy fl name overrides

    abbrev level : F
    level = refilled fl policy now (bs policy.name identity)

    -- What the caller's bucket holds now; it is in its bounds, and no other bucket has changed.
    pub record Holds (tokens : F) (bs' : Buckets fl) : Type 0 where
      pub checked : is_answering link ≡ true
      pub stored : bs' policy.name identity ≡ some (record { tokens = tokens; ts = now })
      pub in_room : InRoom fl policy (bs' policy.name identity)
      pub others :
          (n i : Text)
          → bs' n i ≡ (
              if text_eq n policy.name && text_eq i identity
              then some (record { tokens = tokens; ts = now })
              else bs n i)

    -- How a request may be answered.
    abbrev pub Admits : Verdict × Buckets fl → Type 0
    Admits (Verdict.unchecked, bs') = (enabled ≡ false) × (bs' ≡ bs)
    Admits (Verdict.passes limit remaining, bs') =
        (enabled ≡ true)
        × (limit ≡ policy.capacity)
        × (((is_answering link ≡ false) × (bs' ≡ bs))
            ⊎ ((fl.at_most (fl.of_int cost) level ≡ true)
                × Holds (fl.minus level (fl.of_int cost)) bs'))
    Admits (Verdict.too_many retry_after, bs') =
        (enabled ≡ true)
        × (1 ≤ retry_after)
        × (fl.at_most (fl.of_int cost) level ≡ false)
        × Holds level bs'

    held :
        (tokens : F)
        → is_answering link ≡ true
        → InRoom fl policy (some (record { tokens = tokens; ts = now }))
        → Holds tokens (hset fl policy.name identity (record { tokens = tokens; ts = now }) bs)
    held tokens answers room =
        let here : hset fl policy.name identity (record { tokens = tokens; ts = now }) bs
              policy.name identity
            ≡ some (record { tokens = tokens; ts = now }) =
          rw (text_eq_refl policy.name, text_eq_refl identity) refl in
        record { checked = answers; stored = here; in_room = rw here room; others = λ n i. refl }

    max-least : (n : ℕ) → 1 ≤ max 1 n
    max-least n = ground arith

    answer-Admits :
        (covered : Bool)
        → enabled ≡ true
        → is_answering link ≡ true
        → fl.at_most (fl.of_int cost) level ≡ covered
        → fl.at_most (fl.of_int 0) policy.refill_per_second ≡ true
        → InRoom fl policy (bs policy.name identity)
        → Admits (
          verdict fl policy (take_tokens fl covered policy now (fl.of_int cost) level).0,
          hset fl policy.name identity
              (take_tokens fl covered policy now (fl.of_int cost) level).1
              bs,
        )
    answer-Admits covered on answers e rate room =
        let bounds = refilled-bounds policy now (bs policy.name identity) rate room in
        by_cover covered e (take_tokens-InRoom covered policy now level cost e bounds.0 bounds.1)
      where
        by_cover :
            (c : Bool)
            → fl.at_most (fl.of_int cost) level ≡ c
            → InRoom fl policy (some (take_tokens fl c policy now (fl.of_int cost) level).1)
            → Admits (
              verdict fl policy (take_tokens fl c policy now (fl.of_int cost) level).0,
              hset fl policy.name identity
                  (take_tokens fl c policy now (fl.of_int cost) level).1
                  bs,
            )
        by_cover true f r = (on, refl, inr (f, held (fl.minus level (fl.of_int cost)) answers r))
        by_cover false f r = (
          on,
          max-least (fl.ceil (fl.over (fl.minus (fl.of_int cost) level) policy.refill_per_second)),
          f,
          held level answers r,
        )

    by_link :
        (on : Bool) (l : Link)
        → enabled ≡ on
        → link ≡ l
        → fl.at_most (fl.of_int 0) policy.refill_per_second ≡ true
        → InRoom fl policy (bs policy.name identity)
        → Admits (rate_limit fl on overrides l name cost identity now bs)
    unfolding rate_limit consume consume_script
    by_link false l e f rate room = (e, refl)
    by_link true Link.no_client e f rate room = (e, refl, inl (rw f refl, refl))
    by_link true Link.failing e f rate room = (e, refl, inl (rw f refl, refl))
    by_link true Link.answering e f rate room =
        answer-Admits (fl.at_most (fl.of_int cost) level) e (rw f refl) refl rate room

    -- When the refill rate of the policy is not negative and the caller's bucket is in its bounds,
    -- `rate_limit` lets a request pass without a check where limits are off, and as open where Redis
    -- is off or down; otherwise it passes exactly when the refilled bucket covers the cost, which is
    -- taken off, and is answered 429 with a Retry-After of at least one second when it does not,
    -- with nothing taken off. The bucket stays in its bounds and no other bucket changes.
    pub rate_limit-Admits :
        fl.at_most (fl.of_int 0) policy.refill_per_second ≡ true
        → InRoom fl policy (bs policy.name identity)
        → Admits (rate_limit fl enabled overrides link name cost identity now bs)
    rate_limit-Admits rate room = by_link enabled link refl refl rate room
