-- ===== src/Network/Dns/Reply.antt =====
-- The replies that carry no answer.
use ingot_engine.Base.{ℕ, ◌%◌, ◌≤◌, ◌<◌, ◌≡◌, refl, true, ◌&&◌, ◌∷◌, ◌==◌, leb, arith}
use ingot_engine.Base.Words.{all_below, at_below}
use ingot_engine.Network.Dns.{Bytes, update, as_response, with_rcode, build_error}

as_response_table : all_below 256 (λ b. leb 128 (as_response b) && leb (as_response b) 255) ≡ true
unfolding all_below
as_response_table = refl

with_rcode_table :
    all_below 16 (λ r. all_below 256 (λ b. with_rcode r b % 16 == r && leb (with_rcode r b) 255))
    ≡ true
unfolding all_below
with_rcode_table = refl

-- A reply to a message of at least a header keeps its length, its identification, the questions and all that
-- follows, is marked as a response and carries the given code; its bytes are bytes.
pub build_error_lem :
    (i0 i1 flags codes c4 c5 c6 c7 c8 c9 c10 c11 rcode : ℕ) (s : Bytes)
    → flags < 256
    → codes < 256
    → rcode < 16
    → (response code : ℕ) × (build_error
          (i0 ∷ i1 ∷ flags ∷ codes ∷ c4 ∷ c5 ∷ c6 ∷ c7 ∷ c8 ∷ c9 ∷ c10 ∷ c11 ∷ s)
          rcode
        ≡ i0 ∷ i1 ∷ response ∷ code ∷ c4 ∷ c5 ∷ c6 ∷ c7 ∷ c8 ∷ c9 ∷ c10 ∷ c11 ∷ s)
      × (128 ≤ response)
      × (response < 256)
      × (code % 16 ≡ rcode)
      × (code < 256)
unfolding build_error update
build_error_lem i0 i1 flags codes c4 c5 c6 c7 c8 c9 c10 c11 rcode s hf hc hr =
    let bits =
      at_below 256 (λ b. leb 128 (as_response b) && leb (as_response b) 255) flags as_response_table
        hf in
    let rows =
      at_below 16 (λ r. all_below 256 (λ b. with_rcode r b % 16 == r && leb (with_rcode r b) 255))
        rcode with_rcode_table hr in
    let cell =
      at_below 256 (λ b. with_rcode rcode b % 16 == rcode && leb (with_rcode rcode b) 255) codes
        rows hc in
    (
      as_response flags,
      with_rcode rcode codes,
      ground arith,
      ground arith,
      ground arith,
      ground arith,
      ground arith,
    )
