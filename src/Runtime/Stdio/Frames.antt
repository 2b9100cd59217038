-- ===== src/Runtime/Stdio/Frames.antt =====
-- The frames of a multiplexed stream read back.
use Prim.Native.Nat.{◌/◌}
use native.Mathlib.Nat.{mod-eq_of_lt}
use ingot_engine.Base.{
  ℕ, ◌≡◌, ◌∙◌, ap, ◌+◌, ◌*◌, ◌%◌, ◌^◌, ◌<◌, List, ◌++◌, length, take, take-append, arith,
}
use ingot_engine.Runtime.Stdio.{frame, demux}

read_be :
    (n : ℕ)
    → n < 2 ^ 32
    → n / 2 ^ 24 % 256 * 2 ^ 24 + n / 2 ^ 16 % 256 * 2 ^ 16 + n / 2 ^ 8 % 256 * 2 ^ 8 + n % 256 ≡ n
read_be n h = omega arith

-- The first frame of a stream, whatever follows it, demultiplexes to its stream and its bytes, if these
-- are fewer than 2 ^ 32.
pub demux-frame :
    (stream : ℕ) (bytes rest : List ℕ)
    → length bytes < 2 ^ 32
    → demux (frame stream bytes ++ rest) ≡ (stream, bytes)
unfolding frame demux
demux-frame stream bytes rest h =
    ap (λ n. (stream, take n (bytes ++ rest))) (rw (mod-eq_of_lt h) (read_be (length bytes) h))
    ∙ ap (λ xs. (stream, xs)) (take-append bytes rest)
