-- ===== src/Util/Digest.antt =====
-- crates/util/src/digest.rs: digests and the writer that hashes what it passes on. The crates `sha2` and `hex`
-- are parameters, and so is the writer below.
pub mod Writer
mod Tests
use ingot_engine.Base.{
  ℕ, ◌+◌, ◌≡◌, Bool, true, false, ◌&&◌, Option, none, some, List, [], ◌∷◌, ◌++◌, ◌==◌,
  if◌then◌else◌, length, take, all, ltb, Outcome, ok, err, panic,
}
use ingot_engine.Base.Text.{Text, codes, strip_prefix, split_once, is_ascii_hexdigit}
use ingot_engine.Base.Words.{Profile, add_word}

abbrev pub Bytes : Type 0
Bytes = List ℕ

-- `Sha256` and `hex::encode`.
pub record Hashing : Type 1 where
  pub Hasher : Type 0
  pub new : Hasher
  pub feed : Hasher → Bytes → Hasher
  pub finalize : Hasher → Bytes
  pub encode : Bytes → Text

-- The writer below: what it makes of a buffer, and its state after.
pub record Sink : Type 1 where
  pub State : Type 0
  pub write_to : State → Bytes → Option ℕ × State

module _ (h : Hashing) where
  unfoldable pub sha256_hex : Bytes → Text
  sha256_hex bytes = h.encode (h.finalize (h.feed h.new bytes))

  unfoldable pub digest_hex : Bytes → Text
  unfolding sha256_hex
  digest_hex bytes = codes "sha256:" ++ sha256_hex bytes

  -- The bytes of a text that is UTF-8 are an argument.
  unfoldable pub chain_id : (Text → Bytes) → Option Text → Text → Text
  unfolding sha256_hex
  chain_id as_bytes none diff_id = diff_id
  chain_id as_bytes (some parent) diff_id =
      codes "sha256:" ++ sha256_hex (as_bytes (parent ++ (b' ' ∷ diff_id)))

abbrev is_hex_part : Option Text → Bool
is_hex_part none = false
is_hex_part (some hexpart) = length hexpart == 64 && all is_ascii_hexdigit hexpart

unfoldable pub is_valid_digest : Text → Bool
is_valid_digest d = is_hex_part (strip_prefix (codes "sha256:") d)

-- `none` is the missing prefix.
unfoldable pub split_digest : Text → Option (Text × Text)
split_digest d = split_once b':' d

pub data WriteError : Type 0 where
  write_failed : WriteError

module _ (h : Hashing) (sink : Sink) where
  pub record VerifyingWriter : Type 0 where
    pub inner : sink.State
    pub hasher : h.Hasher
    pub written : ℕ

  abbrev pub new_writer : sink.State → VerifyingWriter
  new_writer inner = record { inner = inner; hasher = h.new; written = 0 }

  -- `self.written += n as u64`.
  abbrev pub counted : VerifyingWriter → ℕ → Option ℕ → Outcome WriteError ℕ × VerifyingWriter
  counted w n none = (panic, w)
  counted w n (some total) = (ok n, record w { written = total })

  abbrev pub hashed :
      Profile
      → VerifyingWriter
      → Bytes
      → Option ℕ × sink.State
      → Outcome WriteError ℕ × VerifyingWriter
  hashed p w buf (none, inner) = (err write_failed, record w { inner = inner })
  hashed p w buf (some n, inner) =
      let fed : VerifyingWriter = record {
        inner = inner;
        hasher = h.feed w.hasher (take n buf);
        written = w.written;
      } in
      if ltb (length buf) n
      then (panic, record w { inner = inner })
      else counted fed n (add_word 64 p w.written n)

  unfoldable pub write : Profile → VerifyingWriter → Bytes → Outcome WriteError ℕ × VerifyingWriter
  write p w buf = hashed p w buf (sink.write_to w.inner buf)

  unfoldable pub finish : VerifyingWriter → sink.State × Text × ℕ
  finish w = (w.inner, h.encode (h.finalize w.hasher), w.written)
