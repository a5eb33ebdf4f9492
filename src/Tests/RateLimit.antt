-- ===== src/Tests/RateLimit.antt =====
-- A bucket in whole numbers, which stand for floats here.
use Prim.Native.Nat.{◌/◌}
use operations_management.Base.{
  ℕ, ◌+◌, ◌-◌, ◌*◌, ◌≡◌, refl, true, none, some, [], ◌∷◌, leb, arith, ◌&&◌, if◌then◌else◌,
  Bool-cases, inl, inr,
}
use operations_management.Text.{text_eq}
use operations_management.Redis.{Link}
use operations_management.RateLimit.{
  Floats, Laws, Buckets, login_name, rate_limit, consume, consume_script, get_policy, refilled,
  Verdict,
}
use operations_management.RateLimit.Buckets.{Admits, rate_limit-Admits}

abbrev whole : Floats ℕ
whole = record {
  ratio = λ a b. a / b;
  of_int = λ n. n;
  plus = λ x y. x + y;
  minus = λ x y. x - y;
  times = λ x y. x * y;
  over = λ x y. x / y;
  at_most = leb;
  floor = λ x. x;
  ceil = λ x. x;
}

whole-Laws : Laws whole
whole-Laws = record {
  total = λ x y. elim (Bool-cases (leb x y)) [ inl h ↦ inl h | inr h ↦ inr (ground arith) ];
  chain = λ x y z h k. ground arith;
  int_least = λ n. ground arith;
  product = λ x y h k. ground arith;
  sum = λ x y h. ground arith;
  rest = λ x y h. ground arith;
  less = λ x y h. ground arith;
}

-- Two tokens at the time 100.
abbrev buckets : Buckets whole
buckets n i =
    if text_eq n login_name && text_eq i (b'u' ∷ [])
    then some (record { tokens = 2; ts = 100 })
    else none

rate_limit-Admits_example :
    Admits whole whole-Laws true [] Link.answering login_name 1
      (b'u' ∷ [])
      103
      buckets
      (rate_limit whole true [] Link.answering login_name 1 (b'u' ∷ []) 103 buckets)
unfolding get_policy
rate_limit-Admits_example =
    rate_limit-Admits whole whole-Laws true [] Link.answering login_name 1 (b'u' ∷ []) 103 buckets
      refl (refl, refl)

-- A bucket with one token lets one request through at a time, and refuses the next.
lets_one :
    (rate_limit whole true [] Link.answering login_name 2 (b'u' ∷ []) 103 buckets).0
    ≡ Verdict.passes 5 0
unfolding rate_limit consume consume_script get_policy refilled
lets_one = refl

refuses_three :
    (rate_limit whole true [] Link.answering login_name 3 (b'u' ∷ []) 103 buckets).0
    ≡ Verdict.too_many 1
unfolding rate_limit consume consume_script get_policy refilled
refuses_three = refl
