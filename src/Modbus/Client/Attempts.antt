-- ===== src/Modbus/Client/Attempts.antt =====
-- How often `ReadWithRetry` of internal/modbus/client.go asks, and what it counts.
use nx_iio_t_gateway_max_gat.Shared.{
  ℕ, zero, suc, ◌+◌, ◌≤◌, ◌<◌, ◌≡◌, ◌≢◌, refl, ◌⊎◌, inl, inr, Bool, false, Option, none, some,
  arith, Bool-cases, Option-cases, ◌∙◌,
}
use nx_iio_t_gateway_max_gat.Modbus.Client.{Client, nothing, reconnect, retry_loop, read_with_retry}

-- `sent` counts the requests on the wire: a read sends one, the link operations none.
pub record CountsReads (c : Client) (sent : c.S → ℕ) : Type 0 where
  pub connect_sends : (s : c.S) → sent (c.connect s).0 ≡ sent s
  pub close_sends : (s : c.S) → sent (c.close s) ≡ sent s
  pub read_sends : (s : c.S) → sent (c.read s).0 ≡ sent s + 1

module _ (c : Client) (sent : c.S → ℕ) (counts : CountsReads c sent) where
  reconnect_sends : (attempt : ℕ) (s : c.S) → sent (reconnect c attempt s).0 ≡ sent s
  unfolding reconnect
  reconnect_sends zero s = refl
  reconnect_sends (suc attempt) s = counts.connect_sends (c.close s) ∙ counts.close_sends s

  retry_loop_bounds :
      (done : ℕ → Bool) (rounds attempt : ℕ) (last : Option c.Error) (s : c.S)
      → let r = retry_loop c done rounds attempt attempt last s in
        (attempt ≤ r.attempts)
        × (r.attempts ≤ attempt + rounds)
        × (sent r.client + attempt ≤ sent s + r.attempts)
  unfolding retry_loop
  retry_loop_bounds done zero attempt last s = (omega arith, omega arith, omega arith)
  retry_loop_bounds done (suc rounds) attempt last s =
      let linked = reconnect c attempt s in
      let answered = c.read linked.0 in
      elim (Option-cases linked.1) [
        | inr (e, broken) ↦
            rw (broken, retry_loop)
              (ground (
                arith,
                retry_loop_bounds done rounds (attempt + 1) (some e) linked.0,
                reconnect_sends attempt s,
              ))
        | inl up ↦ elim (Option-cases answered.1.0) [
          | inl good ↦
              rw (up, retry_loop)
                (rw (good, retry_loop)
                  (omega (arith, reconnect_sends attempt s, counts.read_sends linked.0)))
          | inr (e, bad) ↦ elim (Bool-cases (done attempt)) [
            | inl stop ↦
                rw (up, retry_loop)
                  (rw (bad, retry_loop)
                    (rw (stop, retry_loop)
                      (omega (arith, reconnect_sends attempt s, counts.read_sends linked.0))))
            | inr more ↦
                rw (up, retry_loop)
                  (rw (bad, retry_loop)
                    (rw (more, retry_loop)
                      (ground (
                        arith,
                        retry_loop_bounds done rounds (attempt + 1) (some e) answered.0,
                        reconnect_sends attempt s,
                        counts.read_sends linked.0,
                      ))))
          ]
        ]
      ]

  retry_loop_answers :
      (done : ℕ → Bool) (rounds attempt : ℕ) (last : Option c.Error) (s : c.S)
      → (0 < rounds) ⊎ (last ≢ none)
      → (retry_loop c done rounds attempt attempt last s).answer ≢ nothing
  unfolding retry_loop
  retry_loop_answers done zero attempt none s (inl h) = absurd (omega arith)
  retry_loop_answers done zero attempt none s (inr h) = absurd (h refl)
  retry_loop_answers done zero attempt (some e) s h = λ p. cc
  retry_loop_answers done (suc rounds) attempt last s h =
      let linked = reconnect c attempt s in
      let answered = c.read linked.0 in
      elim (Option-cases linked.1) [
        | inr (e, broken) ↦
            rw (broken, retry_loop)
              (retry_loop_answers done rounds (attempt + 1) (some e) linked.0 (inr (λ p. cc)))
        | inl up ↦ elim (Option-cases answered.1.0) [
          | inl good ↦ rw (up, retry_loop) (rw (good, retry_loop) (λ p. cc))
          | inr (e, bad) ↦ elim (Bool-cases (done attempt)) [
            | inl stop ↦
                rw (up, retry_loop) (rw (bad, retry_loop) (rw (stop, retry_loop) (λ p. cc)))
            | inr more ↦
                rw (up, retry_loop)
                  (rw (bad, retry_loop)
                    (rw (more, retry_loop)
                      (retry_loop_answers done rounds (attempt + 1) (some e) answered.0
                        (inr (λ p. cc)))))
          ]
        ]
      ]

  first_attempt :
      (done : ℕ → Bool) (max_retries : ℕ) (s : c.S)
      → 1 ≤ (read_with_retry c done max_retries s).attempts
  unfolding read_with_retry reconnect
  first_attempt done max_retries s = elim (Option-cases (c.read s).1.0) [
    | inl good ↦ rw (good, retry_loop) (omega arith)
    | inr (e, bad) ↦ elim (Bool-cases (done 0)) [
      | inl stop ↦ rw (bad, retry_loop) (rw (stop, retry_loop) (omega arith))
      | inr more ↦
          rw (bad, retry_loop)
            (rw (more, retry_loop)
              (omega (arith, retry_loop_bounds done max_retries 1 (some e) (c.read s).0)))
    ]
  ]

  -- The reported attempts lie between 1 and maxRetries + 1, no more requests than that went out on
  -- the wire, and the call returns the bytes of a read or an error.
  pub read_with_retry_bounds :
      (done : ℕ → Bool) (max_retries : ℕ) (s : c.S)
      → let r = read_with_retry c done max_retries s in
        (1 ≤ r.attempts)
        × (r.attempts ≤ max_retries + 1)
        × (sent r.client ≤ sent s + r.attempts)
        × (r.answer ≢ nothing)
  read_with_retry_bounds done max_retries s = (
    first_attempt done max_retries s,
    unfold read_with_retry in (omega (arith, retry_loop_bounds done (suc max_retries) 0 none s)),
    unfold read_with_retry in (omega (arith, retry_loop_bounds done (suc max_retries) 0 none s)),
    unfold read_with_retry in
        retry_loop_answers done (suc max_retries) 0 none s (inl (omega arith)),
  )

  reconnect_down :
      (attempt : ℕ) (s : c.S)
      → 0 < attempt
      → ((s : c.S) → (c.connect s).1 ≢ none)
      → (reconnect c attempt s).1 ≢ none
  unfolding reconnect
  reconnect_down zero s h down = absurd (omega arith)
  reconnect_down (suc attempt) s h down = down (c.close s)

  link_down :
      (done : ℕ → Bool) (rounds attempt : ℕ) (last : Option c.Error) (s : c.S)
      → 0 < attempt
      → ((s : c.S) → (c.connect s).1 ≢ none)
      → let r = retry_loop c done rounds attempt attempt last s in
        (r.attempts ≡ attempt + rounds) × (sent r.client ≡ sent s)
  unfolding retry_loop
  link_down done zero attempt last s h down = (omega arith, refl)
  link_down done (suc rounds) attempt last s h down =
      let linked = reconnect c attempt s in
      elim (Option-cases linked.1) [
        | inl up ↦ absurd (reconnect_down attempt s h down up)
        | inr (e, broken) ↦
            let ih = link_down done rounds (attempt + 1) (some e) linked.0 (omega arith) down in
            rw (broken, retry_loop)
              (omega (arith, ih.0), omega (arith, ih.1, reconnect_sends attempt s))
      ]

  -- A retry whose reconnection fails is counted though it sends nothing: with the link down after a
  -- first failed read, maxRetries + 1 attempts are reported and one request was sent.
  pub read_with_retry_overcounts :
      (done : ℕ → Bool) (max_retries : ℕ) (s : c.S) (e : c.Error)
      → (c.read s).1.0 ≡ some e
      → done 0 ≡ false
      → ((s : c.S) → (c.connect s).1 ≢ none)
      → let r = read_with_retry c done max_retries s in
        (r.attempts ≡ max_retries + 1) × (sent r.client ≡ sent s + 1)
  unfolding read_with_retry reconnect
  read_with_retry_overcounts done max_retries s e bad more down =
      rw (bad, retry_loop)
        (rw (more, retry_loop)
          (let ih = link_down done max_retries (0 + 1) (some e) (c.read s).0 (omega arith) down in
            (omega (arith, ih.0), omega (arith, ih.1, counts.read_sends s))))
