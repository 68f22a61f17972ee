-- ===== src/Modbus/Client.antt =====
-- internal/modbus/client.go: a read with retries over a client, which is a parameter.
pub mod Attempts
use nx_iio_t_gateway_max_gat.Shared.{
  ℕ, zero, suc, ◌+◌, ◌≡◌, Bool, true, false, List, Option, none, some, if◌then◌else◌,
}

-- A transport client with a state `S`, and the request `read` answers. `Error` is Go's error.
pub record Client : Type 1 where
  pub S : Type 0
  pub Error : Type 0
  pub connect : S → S × Option Error
  pub close : S → S
  pub read : S → S × (Option Error × List ℕ)

-- What `ReadWithRetry` returns: the bytes, an error of the client, `ctx.Err()`, or nil for both.
pub data Answer (Error : Type 0) : Type 0 where
  bytes : List ℕ → Answer Error
  failed : Error → Answer Error
  cancelled : Answer Error
  nothing : Answer Error

module _ (c : Client) where
  pub record Retried : Type 0 where
    pub client : c.S
    pub attempts : ℕ
    pub answer : Answer c.Error

  abbrev last_answer : Option c.Error → Answer c.Error
  last_answer none = nothing
  last_answer (some e) = failed e

  -- `attempt > 0` closes and connects again before the read; a connect that fails skips the read.
  reconnect : ℕ → c.S → c.S × Option c.Error
  reconnect zero s = (s, none)
  reconnect (suc attempt) s = c.connect (c.close s)

  -- `rounds` is how many passes of the loop are left, and `attempts` what was counted so far.
  -- `done` says of each pass whether `ctx.Done()` is ready when it is looked at.
  retry_loop : (ℕ → Bool) → ℕ → ℕ → ℕ → Option c.Error → c.S → Retried
  unfolding reconnect
  retry_loop done zero attempt attempts last s = record {
    client = s;
    attempts = attempts;
    answer = last_answer last;
  }
  retry_loop done (suc rounds) attempt attempts last s =
      let linked = reconnect attempt s in
      let answered = c.read linked.0 in
      elim linked.1 [
        | some e ↦ retry_loop done rounds (attempt + 1) (attempt + 1) (some e) linked.0
        | none ↦ elim answered.1.0 [
          | none ↦ record {
            client = answered.0;
            attempts = attempt + 1;
            answer = bytes answered.1.1;
          }
          | some e ↦ elim (done attempt) [
            | true ↦ record { client = answered.0; attempts = attempt + 1; answer = cancelled }
            | false ↦ retry_loop done rounds (attempt + 1) (attempt + 1) (some e) answered.0
          ]
        ]
      ]

  -- With a maxRetries that is not negative the loop makes at most maxRetries + 1 passes.
  unfoldable pub read_with_retry : (ℕ → Bool) → ℕ → c.S → Retried
  unfolding retry_loop
  read_with_retry done max_retries s = retry_loop done (suc max_retries) 0 0 none s
