-- ===== src/Util/Digest/Tests.antt =====
-- Runs of the digests' model, and its theorem at an input that meets its hypotheses.
use mathlib.Core.List.{append_assoc, append-nil}
use ingot_engine.Base.{
  ◌≡◌, refl, sym, ◌∙◌, false, some, List, [], ◌∷◌, ◌++◌, length, take, all, ok, arith,
}
use ingot_engine.Base.Text.{codes, strip_prefix, split_once_at, is_ascii_hexdigit}
use ingot_engine.Base.Words.{debug, add_word}
use ingot_engine.Util.Digest.{
  Bytes, Hashing, Sink, VerifyingWriter, new_writer, write, finish, sha256_hex, chain_id,
  split_digest, is_valid_digest,
}
use ingot_engine.Util.Digest.Writer.{joined, feed_all, InPieces, stop, accepted, finish-Writes}

-- A hash that is the input itself.
abbrev plain : Hashing
plain = record {
  Hasher = Bytes;
  new = [];
  feed = λ s b. s ++ b;
  finalize = λ s. s;
  encode = λ s. s;
}

-- A sink that takes two bytes at most.
abbrev narrow : Sink
narrow = record { State = Bytes; write_to = λ s buf. (some (length (take 2 buf)), s ++ take 2 buf) }

feed_all-plain : (s : Bytes) (chunks : List Bytes) → feed_all plain s chunks ≡ s ++ joined chunks
unfolding feed_all joined
feed_all-plain s [] = sym (append-nil s)
feed_all-plain s (b ∷ bs) = feed_all-plain (s ++ b) bs ∙ append_assoc s b (joined bs)

plain-InPieces : InPieces plain
plain-InPieces chunks = feed_all-plain [] chunks

abbrev one_written : VerifyingWriter plain narrow
one_written = record { inner = codes "ab"; hasher = codes "ab"; written = 2 }

one_write :
    write plain narrow debug (new_writer plain narrow []) (codes "abc") ≡ (ok 2, one_written)
unfolding write add_word
one_write = refl

runs :
    (is_valid_digest (codes "sha256:00") ≡ false)
    × (split_digest (codes "sha256:00") ≡ some (codes "sha256", codes "00"))
    × (chain_id plain (λ s. s) (some (codes "p")) (codes "d") ≡ codes "sha256:p d")
unfolding is_valid_digest split_digest chain_id strip_prefix split_once_at all is_ascii_hexdigit
    sha256_hex
runs = (refl, refl, refl)

finish-Writes_example : finish plain narrow one_written ≡ (
  one_written.inner,
  sha256_hex plain (joined (codes "ab" ∷ [])),
  length (joined (codes "ab" ∷ [])),
)
unfolding joined
finish-Writes_example =
    finish-Writes plain narrow debug [] (codes "ab" ∷ []) one_written plain-InPieces
      (accepted (codes "abc") 2 one_write stop) (omega arith)
