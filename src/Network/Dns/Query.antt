-- ===== src/Network/Dns/Query.antt =====
-- The name of a query reads back.
use mathlib.Core.List.{append_assoc}
use ingot_engine.Base.{
  ℕ, zero, suc, ◌+◌, ◌*◌, ◌≤◌, ◌<◌, ◌≡◌, refl, sym, ap, ◌∙◌, true, false, some, List, [], ◌∷◌, ◌++◌,
  ◌==◌, length, drop, leb, ltb, All, map, arith, length-append, take-append, drop-append,
}
use Prim.Native.Nat.{bit_and}
use ingot_engine.Base.Words.{all_below, at_below}
use ingot_engine.Base.Text.{Text}
use ingot_engine.Network.Dns.{Bytes, read_labels, name_of_labels, extract_query_name_type}

unfoldable pub encode_name : List Bytes → Bytes
encode_name [] = 0 ∷ []
encode_name (l ∷ ls) = length l ∷ (l ++ encode_name ls)

-- From one to 63 bytes.
abbrev pub IsLabel : Bytes → Type 0
IsLabel l = (1 ≤ length l) × (length l < 64)

length-encode_name : (ls : List Bytes) → length ls ≤ length (encode_name ls)
unfolding encode_name
length-encode_name [] = omega arith
length-encode_name (l ∷ ls) = omega (arith, length-append l (encode_name ls), length-encode_name ls)

no_high_bits_below : all_below 64 (λ n. leb (bit_and n 0xc0) 0) ≡ true
unfolding all_below
no_high_bits_below = refl

no_high_bits : (n : ℕ) → n < 64 → ltb 0 (bit_and n 0xc0) ≡ false
no_high_bits n h =
    let low = at_below 64 (λ n. leb (bit_and n 0xc0) 0) n no_high_bits_below h in ground arith

module _ (lossy : Bytes → Text) where
  read_labels-label :
      (f : ℕ) (l s : Bytes) (labels : List Text) (rest : Bytes)
      → IsLabel l
      → read_labels lossy f s ≡ some (labels, rest)
      → read_labels lossy (suc f) (length l ∷ (l ++ s)) ≡ some (lossy l ∷ labels, rest)
  unfolding read_labels
  read_labels-label f l s labels rest h e =
      let some_byte : (length l == 0) ≡ false = ground (arith, h.0) in
      let fits : ltb (length (l ++ s)) (length l) ≡ false = ground (arith, length-append l s) in
      rw (some_byte, no_high_bits (length l) h.1, fits, drop-append l s, e, take-append l s)

  read_labels-encode_name :
      (f : ℕ) (ls : List Bytes) (s : Bytes)
      → All IsLabel ls
      → length ls < f
      → read_labels lossy f (encode_name ls ++ s) ≡ some (map lossy ls, 0 ∷ s)
  unfolding encode_name
  read_labels-encode_name zero ls s h k = absurd (omega arith)
  read_labels-encode_name (suc f) [] s h k = unfold read_labels in refl
  read_labels-encode_name (suc f) (l ∷ ls) s h k = rw (append_assoc l (encode_name ls) s) (
      read_labels-label f l (encode_name ls ++ s) (map lossy ls) (0 ∷ s) h.0
        (read_labels-encode_name f ls s h.1 (omega arith)))

  -- A query of a header of twelve bytes, the labels of a name, each with its length, and a type, yields the
  -- labels' text in lower case, joined by dots, and the type, whatever follows.
  pub extract_query_name_type-encode_name :
      (header : Bytes) (ls : List Bytes) (hi lo : ℕ) (s : Bytes)
      → length header ≡ 12
      → All IsLabel ls
      → extract_query_name_type lossy (header ++ (encode_name ls ++ (hi ∷ lo ∷ s)))
        ≡ (name_of_labels (map lossy ls), hi * 256 + lo)
  unfolding extract_query_name_type
  extract_query_name_type-encode_name header ls hi lo s h k =
      let message = encode_name ls ++ (hi ∷ lo ∷ s) in
      let long : ltb (length (header ++ message)) 12 ≡ false =
        ground (arith, length-append header message) in
      let behind : drop 12 (header ++ message) ≡ message =
        ap (λ n. drop n (header ++ message)) (sym h) ∙ drop-append header message in
      let fuel : length ls < suc (length (header ++ message)) = omega (
        arith,
        length-append header message,
        length-append (encode_name ls) (hi ∷ lo ∷ s),
        length-encode_name ls,
      ) in
      rw (
        long,
        behind,
        read_labels-encode_name (suc (length (header ++ message))) ls (hi ∷ lo ∷ s) k fuel,
      )
