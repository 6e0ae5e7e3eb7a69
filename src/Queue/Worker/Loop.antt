-- ===== src/Queue/Worker/Loop.antt =====
-- A loop that keeps the laws of retry-go.
use cali_go_stack.Base.{
  ℕ, suc, zero, ◌≡◌, refl, Bool, false, Option, none, some, arith, if◌then◌else◌,
}
use cali_go_stack.Queue.Registry.{Failure}
use cali_go_stack.Queue.Worker.{RetryDo, RetryLaws}

module _ {S : Type 0} where
  unfoldable pub retry_loop : RetryDo S
  retry_loop zero retry_if fn s = (none, s)
  retry_loop (suc zero) retry_if fn s = fn s
  retry_loop (suc (suc n)) retry_if fn s =
      let rest = retry_loop (suc n) retry_if fn (fn s).1 in
      elim (fn s).0 [ none ↦ fn s | some e ↦ if retry_if e then rest else fn s ]

  -- The first call is the last one.
  stops :
      (n : ℕ) (retry_if : Failure → Bool) (fn : S → Option Failure × S) (s : S)
      (x : Option Failure × S)
      → fn s ≡ x
      → elim x.0 [ none ↦ false | some e ↦ retry_if e ] ≡ false
      → retry_loop (suc n) retry_if fn s ≡ x
  unfolding retry_loop
  stops zero retry_if fn s x called last = called
  stops (suc n) retry_if fn s (none, s') called last = ground (arith, called)
  stops (suc n) retry_if fn s (some e, s') called last = ground (arith, called, last)

  pub retry_loop-laws : RetryLaws retry_loop
  unfolding retry_loop
  retry_loop-laws = record {
    succeeds = λ n retry_if fn s s' called. stops n retry_if fn s (none, s') called refl;
    refused =
        λ n retry_if fn s s' e called refused. stops n retry_if fn s (some e, s') called refused;
    exhausted = λ retry_if fn s s' e called. called;
    again = λ n retry_if fn s s' e called brief. ground (arith, called, brief);
  }
