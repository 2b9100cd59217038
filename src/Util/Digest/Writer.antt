-- ===== src/Util/Digest/Writer.antt =====
-- What a `VerifyingWriter` has hashed and counted.
use ingot_engine.Base.{
  ℕ, ◌+◌, ◌^◌, ◌≤◌, ◌<◌, ◌≡◌, refl, sym, ap, ◌∙◌, Option, none, some, List, [], ◌∷◌, ◌++◌, length,
  take, ltb, length-append, length-take, arith, Outcome, ok, err, panic, Bool-cases, inl, inr,
}
use mathlib.Core.Path.{subst}
use mathlib.Core.Option.{some-injective}
use ingot_engine.Base.Words.{Profile, add_word, add_word_fits}
use ingot_engine.Util.Digest.{
  Bytes, Hashing, Sink, WriteError, VerifyingWriter, new_writer, counted, hashed, write, finish,
  sha256_hex,
}

unfoldable pub joined : List Bytes → Bytes
joined [] = []
joined (b ∷ bs) = b ++ joined bs

unfoldable pub feed_all : (h : Hashing) → h.Hasher → List Bytes → h.Hasher
feed_all h s [] = s
feed_all h s (b ∷ bs) = feed_all h (h.feed s b) bs

-- A hash in pieces is the hash of the whole.
abbrev pub InPieces : Hashing → Type 0
InPieces h =
    (chunks : List Bytes)
    → h.finalize (feed_all h h.new chunks) ≡ h.finalize (h.feed h.new (joined chunks))

-- Writes one after the other, accepted or refused, and the parts of the buffers that were accepted.
pub data Writes (h : Hashing) (sink : Sink) (p : Profile)
    : VerifyingWriter h sink → List Bytes → VerifyingWriter h sink → Type 0 where
  stop : {w : VerifyingWriter h sink} → Writes h sink p w [] w
  accepted :
      {w v x : VerifyingWriter h sink} {parts : List Bytes} (buf : Bytes) (n : ℕ)
      → write h sink p w buf ≡ (ok n, v)
      → Writes h sink p v parts x
      → Writes h sink p w (take n buf ∷ parts) x
  refused :
      {w v x : VerifyingWriter h sink} {parts : List Bytes} (buf : Bytes) (e : WriteError)
      → write h sink p w buf ≡ (err e, v)
      → Writes h sink p v parts x
      → Writes h sink p w parts x

module _ (h : Hashing) (sink : Sink) (p : Profile) where
  abbrev Step : VerifyingWriter h sink → VerifyingWriter h sink → Bytes → ℕ → Type 0
  Step w v buf n =
      (v.hasher ≡ h.feed w.hasher (take n buf))
      × (n ≤ length buf)
      × (add_word 64 p w.written n ≡ some v.written)

  abbrev Same : VerifyingWriter h sink → VerifyingWriter h sink → Type 0
  Same w v = (v.hasher ≡ w.hasher) × (v.written ≡ w.written)

  -- The state after a write, by its result.
  abbrev After :
      VerifyingWriter h sink → Bytes → Outcome WriteError ℕ × VerifyingWriter h sink → Type 0
  After w buf (ok n, v) = Step w v buf n
  After w buf (err e, v) = Same w v
  After w buf (panic, v) = Unit

  counted-After :
      (w : VerifyingWriter h sink) (inner : sink.State) (buf : Bytes) (n : ℕ) (o : Option ℕ)
      → n ≤ length buf
      → add_word 64 p w.written n ≡ o
      → After w buf (
          counted h sink
            (record { inner = inner; hasher = h.feed w.hasher (take n buf); written = w.written })
            n
            o)
  counted-After w inner buf n none le e = tt
  counted-After w inner buf n (some total) le e = (refl, le, e)

  hashed-After :
      (w : VerifyingWriter h sink) (buf : Bytes) (o : Option ℕ × sink.State)
      → After w buf (hashed h sink p w buf o)
  hashed-After w buf (none, inner) = (refl, refl)
  hashed-After w buf (some n, inner) = elim (Bool-cases (ltb (length buf) n)) [
    | inl e ↦ rw e tt
    | inr e ↦ rw e (counted-After w inner buf n (add_word 64 p w.written n) (ground arith) refl)
  ]

  write-After : (w : VerifyingWriter h sink) (buf : Bytes) → After w buf (write h sink p w buf)
  unfolding write
  write-After w buf = hashed-After w buf (sink.write_to w.inner buf)

  Writes-totals :
      {w v : VerifyingWriter h sink} {parts : List Bytes}
      → Writes h sink p w parts v
      → w.written + length (joined parts) < 2 ^ 64
      → (v.hasher ≡ feed_all h w.hasher parts) × (v.written ≡ w.written + length (joined parts))
  unfolding joined feed_all
  Writes-totals stop fits = (refl, omega arith)
  Writes-totals (accepted {w} {v} {x} {parts} buf n e r) fits =
      let (fed, le, total) = subst (After w buf) e (write-After w buf) in
      let part = length-take n buf le in
      let all = length-append (take n buf) (joined parts) in
      let count : v.written ≡ w.written + n =
        some-injective v.written (w.written + n)
          (sym total ∙ add_word_fits 64 w.written p n (omega arith)) in
      let rest = Writes-totals r (omega arith) in
      (rest.0 ∙ ap (λ s. feed_all h s parts) fed, omega arith)
  Writes-totals (refused {w} {v} {x} {parts} buf e q r) fits =
      let (fed, count) = subst (After w buf) q (write-After w buf) in
      let rest = Writes-totals r (omega arith) in
      (rest.0 ∙ ap (λ s. feed_all h s parts) fed, omega arith)

  -- After any writes, accepted in whole or in part or refused, that together pass on less than 2 ^ 64 bytes,
  -- `finish` gives the digest of exactly the bytes that the writer below accepted, and their number, if the
  -- hash of pieces is the hash of the whole.
  pub finish-Writes :
      (inner : sink.State) (parts : List Bytes) (v : VerifyingWriter h sink)
      → InPieces h
      → Writes h sink p (new_writer h sink inner) parts v
      → length (joined parts) < 2 ^ 64
      → finish h sink v ≡ (v.inner, sha256_hex h (joined parts), length (joined parts))
  unfolding finish sha256_hex
  finish-Writes inner parts v law writes fits =
      let (fed, total) = Writes-totals writes (omega arith) in
      let count : v.written ≡ length (joined parts) = omega arith in
      let whole = ap h.finalize fed ∙ law parts in rw (whole, count)
