-- ===== src/Connectors/Prompts/Rounds.antt =====
-- The rounds that `read_prompt` of app/dal/proxy/connectors.py can need.
use network_gateway_api.Prelude.{
  ℕ, zero, suc, ◌+◌, ◌≤◌, ◌<◌, ◌≡◌, refl, ap, ◌∙◌, Bool, Option, [], ◌∷◌, ◌++◌, length, Bool-cases,
  Outcome-cases, inl, inr, ltb, ltb_false→le, arith,
}
use network_gateway_api.Connectors.Stream.{Bytes, Wire, recv}
use network_gateway_api.Telnet.Negotiator.{Negotiator}
use network_gateway_api.Connectors.Prompts.{prompt_loop, cleaned_by, read_prompt, prompt_limit}

module _ (is_prompt : Bytes → Bool) where
  prompt_loop-suc :
      (fuel size : ℕ) (n : Option Negotiator) (found : Bytes) (wire : Wire)
      → size ≤ 16384
      → 16384 < size + fuel
      → prompt_loop is_prompt (suc fuel) size n found wire
        ≡ prompt_loop is_prompt fuel size n found wire
  unfolding prompt_loop
  prompt_loop-suc zero size n found wire h k = absurd (omega arith)
  prompt_loop-suc (suc fuel) size n found wire h k =
      elim (Outcome-cases (recv 1024 wire.incoming)) [
        | inr (_, e) ↦ rw (e, prompt_loop) refl
        | inl (([], rest), e) ↦ rw (e, prompt_loop) refl
        | inl ((b ∷ bytes, rest), e) ↦ elim (Bool-cases (ltb 16384 (size + length (b ∷ bytes)))) [
          | inl f ↦ rw (e, f, prompt_loop) refl
          | inr f ↦
              let more =
                prompt_loop-suc fuel (size + length (b ∷ bytes)) (cleaned_by n (b ∷ bytes)).1
                  (found ++ (cleaned_by n (b ∷ bytes)).0)
                  (record { incoming = rest; sent = wire.sent ++ (cleaned_by n (b ∷ bytes)).2 })
                  (ltb_false→le _ _ f) (omega arith) in
              rw (e, f, prompt_loop, more) refl
        ]
      ]

  -- With any more rounds than the model gives it, `read_prompt` has the same result: the loop never
  -- ends for want of rounds.
  pub read_prompt-enough :
      (extra : ℕ) (n : Option Negotiator) (wire : Wire)
      → prompt_loop is_prompt (extra + prompt_limit) 0 n [] wire ≡ read_prompt is_prompt n wire
  unfolding read_prompt
  read_prompt-enough zero n wire = refl
  read_prompt-enough (suc extra) n wire =
      ap (λ k. prompt_loop is_prompt k 0 n [] wire) (one_more extra)
      ∙ prompt_loop-suc (extra + prompt_limit) 0 n [] wire (omega arith) (omega arith)
      ∙ read_prompt-enough extra n wire
    where
      one_more : (k : ℕ) → suc k + prompt_limit ≡ suc (k + prompt_limit)
      one_more k = omega arith
