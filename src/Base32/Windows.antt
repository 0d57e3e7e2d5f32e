-- ===== src/Base32/Windows.antt =====
-- utils/base32.cpp: how the window of the encoder moves, by the bits that have been given out.
use syncspirit.Prelude.{
  ℕ, zero, suc, ◌+◌, ◌-◌, ◌*◌, ◌/◌, ◌%◌, ◌^◌, ◌<◌, ◌≡◌, refl, ap, ◌∙◌, List, [], ◌∷◌, leb, arith,
  Bool-cases, inl, inr,
}
use syncspirit.Base32.{Encoder, pull_in, encode_step}

-- Two bytes, as the number `t`, of which `k` bits have been given out.
abbrev pub pair_state : ℕ → ℕ → List ℕ → Encoder
pair_state k t input = record {
  input = input;
  window = t % 2 ^ (16 - k) * 2 ^ k;
  in_bits = 16 - k;
  sign_bits = 16 - k;
}

-- The last byte.
abbrev pub last_state : ℕ → ℕ → ℕ → Encoder
last_state k b sign_bits = record {
  input = [];
  window = b % 2 ^ (8 - k) * 2 ^ (8 + k);
  in_bits = 8 - k;
  sign_bits = sign_bits;
}

module _ {ℓ} (P : ℕ → Type ℓ) where
  pub up_to_3 : P 0 → P 1 → P 2 → (k : ℕ) → k < 3 → P k
  up_to_3 p0 p1 p2 zero h = p0
  up_to_3 p0 p1 p2 (suc zero) h = p1
  up_to_3 p0 p1 p2 (suc (suc zero)) h = p2
  up_to_3 p0 p1 p2 (suc (suc (suc k))) h = absurd omega arith

  pub up_to_5 : P 0 → P 1 → P 2 → P 3 → P 4 → (k : ℕ) → k < 5 → P k
  up_to_5 p0 p1 p2 p3 p4 zero h = p0
  up_to_5 p0 p1 p2 p3 p4 (suc zero) h = p1
  up_to_5 p0 p1 p2 p3 p4 (suc (suc zero)) h = p2
  up_to_5 p0 p1 p2 p3 p4 (suc (suc (suc zero))) h = p3
  up_to_5 p0 p1 p2 p3 p4 (suc (suc (suc (suc zero)))) h = p4
  up_to_5 p0 p1 p2 p3 p4 (suc (suc (suc (suc (suc k))))) h = absurd omega arith

pub encode_step-pair :
    (t : ℕ) (input : List ℕ) (k : ℕ)
    → k < 3
    → encode_step (pair_state k t input) ≡ pair_state (k + 5) t input
unfolding encode_step
encode_step-pair t input =
    up_to_3 (λ k. encode_step (pair_state k t input) ≡ pair_state (k + 5) t input)
      (ap (λ w. record { input = input; window = w; in_bits = 11; sign_bits = 11 }) (omega arith))
      (ap (λ w. record { input = input; window = w; in_bits = 10; sign_bits = 10 }) (omega arith))
      (ap (λ w. record { input = input; window = w; in_bits = 9; sign_bits = 9 }) (omega arith))

-- The first byte has been given out, and the next one is pulled in.
pub encode_step-next :
    (t c : ℕ) (input : List ℕ)
    → c < 256
    → (k : ℕ) → k < 5
    → encode_step (pair_state (k + 3) t (c ∷ input)) ≡ pair_state k (t % 256 * 256 + c) input
unfolding encode_step pull_in
encode_step-next t c input h =
    up_to_5
      (λ k. encode_step (pair_state (k + 3) t (c ∷ input)) ≡ pair_state k (t % 256 * 256 + c) input)
      (ap (λ w. record { input = input; window = w; in_bits = 16; sign_bits = 16 }) (omega arith))
      (ap (λ w. record { input = input; window = w; in_bits = 15; sign_bits = 15 }) (omega arith))
      (ap (λ w. record { input = input; window = w; in_bits = 14; sign_bits = 14 }) (omega arith))
      (ap (λ w. record { input = input; window = w; in_bits = 13; sign_bits = 13 }) (omega arith))
      (ap (λ w. record { input = input; window = w; in_bits = 12; sign_bits = 12 }) (omega arith))

pub encode_step-ends :
    (t k : ℕ) → k < 5 → encode_step (pair_state (k + 3) t []) ≡ last_state k (t % 256) (8 - k)
unfolding encode_step
encode_step-ends t =
    up_to_5 (λ k. encode_step (pair_state (k + 3) t []) ≡ last_state k (t % 256) (8 - k))
      (ap (λ w. record { input = []; window = w; in_bits = 8; sign_bits = 8 }) (omega arith))
      (ap (λ w. record { input = []; window = w; in_bits = 7; sign_bits = 7 }) (omega arith))
      (ap (λ w. record { input = []; window = w; in_bits = 6; sign_bits = 6 }) (omega arith))
      (ap (λ w. record { input = []; window = w; in_bits = 5; sign_bits = 5 }) (omega arith))
      (ap (λ w. record { input = []; window = w; in_bits = 4; sign_bits = 4 }) (omega arith))

-- Without bytes nothing is pulled in.
pub encode_step-without :
    (window in_bits sign_bits : ℕ)
    → encode_step (record { input = []; window = window; in_bits = in_bits; sign_bits = sign_bits })
      ≡ record {
        input = [];
        window = window * 32 % 65536 / 2 * 2;
        in_bits = in_bits - 5;
        sign_bits = sign_bits - 5;
      }
unfolding encode_step
encode_step-without window in_bits sign_bits = elim (Bool-cases (leb (sign_bits - 5) 8)) [
  | inl low ↦ rw low refl
  | inr high ↦ rw high refl
]

pub encode_step-last :
    (b sign_bits k : ℕ)
    → k < 3
    → encode_step (last_state k b sign_bits) ≡ last_state (k + 5) b (sign_bits - 5)
encode_step-last b sign_bits =
    up_to_3 (λ k. encode_step (last_state k b sign_bits) ≡ last_state (k + 5) b (sign_bits - 5))
      (encode_step-without _ _ sign_bits
        ∙ ap (λ w. record { input = []; window = w; in_bits = 3; sign_bits = sign_bits - 5 })
            (omega arith))
      (encode_step-without _ _ sign_bits
        ∙ ap (λ w. record { input = []; window = w; in_bits = 2; sign_bits = sign_bits - 5 })
            (omega arith))
      (encode_step-without _ _ sign_bits
        ∙ ap (λ w. record { input = []; window = w; in_bits = 1; sign_bits = sign_bits - 5 })
            (omega arith))
