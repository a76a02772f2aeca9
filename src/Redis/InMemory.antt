-- ===== src/Redis/InMemory.antt =====
-- A store in memory that has the behaviour of the interface, for tests: counters and texts, each in a
-- function.
use gaty.Prelude.{ℕ, ◌+◌, ◌-◌, String, Option, none, some, refl, str_eq, if◌then◌else◌, arith}
use gaty.Redis.{Redis, UuidText}

pub record Memory : Type 0 where
  pub counters : String → ℕ
  pub texts : String → Option String

abbrev pub in_memory : Redis
in_memory = record {
  Store = Memory;
  count = λ s k. s.counters k;
  get = λ s k. s.texts k;
  incr = λ k s. record s { counters = λ j. if str_eq k j then s.counters k + 1 else s.counters j };
  decr = λ k s. record s { counters = λ j. if str_eq k j then s.counters k - 1 else s.counters j };
  del = λ k s. record {
    counters = λ j. if str_eq k j then 0 else s.counters j;
    texts = λ j. if str_eq k j then none else s.texts j;
  };
  set = λ k v s. record s { texts = λ j. if str_eq k j then some v else s.texts j };
  count-incr = λ k j s. refl;
  count-decr = λ k j s. refl;
  count-del = λ k j s. refl;
  count-set_ne = λ k j v s ne. refl;
  get-set = λ k j v s. refl;
  get-del = λ k j s. refl;
}

abbrev pub empty : Memory
empty = record { counters = λ k. 0; texts = λ k. none }

-- texts of identifiers, in unary
abbrev pub tally : ℕ → String
tally ℕ.zero = ""
tally (ℕ.suc n) = String.◌∷◌ "a" (tally n)

abbrev pub uuids : UuidText
uuids = record {
  text = λ i. String.◌∷◌ "0" (tally i);
  head = λ i. "0";
  tail = tally;
  text_lem = λ i. refl;
  head_hex = λ i. λ e. ground arith;
}
