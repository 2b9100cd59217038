-- ===== src/Network/Address/V6/Bound.antt =====
-- Only 128-bit addresses are read: eight groups of 16 bits.
use ingot_engine.Base.{
  ◌≢◌, ℕ, zero, suc, ◌+◌, ◌*◌, ◌^◌, ◌<◌, ◌-◌, ◌≤◌, ◌≡◌, refl, ap, Bool, true, false, Option, none,
  some, List, [], ◌∷◌, ◌++◌, arith, ltb, ◌==◌, length, All, All-append, length-append, Bool-cases,
  Option-cases, inl, inr,
}
use ingot_engine.Base.Text.{Text, is_ascii_hexdigit}
use ingot_engine.Network.Address.{read_octet-lt}
use ingot_engine.Network.Address.V6.{
  read_ipv4_addr, read_hex, hex_value, read_colon, read_group, read_embedded, Groups, read_groups,
  address_or, then_groups, embedded_at, zeros, of_groups, with_tail, behind_head, read_ipv6_addr,
  at_end, parse_ipv6,
}

abbrev Word : ℕ → Type 0
Word g = g < 65536

read_ipv4_addr-lt : (s : Text) (x : ℕ × Text) → read_ipv4_addr s ≡ some x → x.0 < 2 ^ 32
unfolding read_ipv4_addr
read_ipv4_addr-lt s x h = grind (arith, read_octet-lt)

hex_value-lt : (c : ℕ) → is_ascii_hexdigit c ≡ true → hex_value c < 16
unfolding is_ascii_hexdigit
hex_value-lt c h = ground arith

-- What `n` digits can hold.
abbrev cap : ℕ → ℕ
cap zero = 1
cap (suc n) = 16 * cap n

cap-le : (n : ℕ) → n ≤ 4 → cap n ≤ 65536
cap-le zero h = omega arith
cap-le (suc zero) h = omega arith
cap-le (suc (suc zero)) h = omega arith
cap-le (suc (suc (suc zero))) h = omega arith
cap-le (suc (suc (suc (suc zero)))) h = omega arith
cap-le (suc (suc (suc (suc (suc n))))) h = absurd (omega arith)

read_hex-lt :
    (s : Text) (n acc : ℕ) (x : ℕ × Text)
    → n ≤ 4
    → acc < cap n
    → read_hex s n acc ≡ some x
    → Word x.0
unfolding read_hex
read_hex-lt [] n acc x le fits h =
    let most = cap-le n le in let small : acc < 65536 = omega arith in ground arith
read_hex-lt (c ∷ s) n acc x le fits h =
    let most = cap-le n le in
    let small : acc < 65536 = omega arith in
    elim (Bool-cases (is_ascii_hexdigit c)) [
      | inl digit ↦ elim (Bool-cases (ltb n 4)) [
        | inl room ↦
            let below = hex_value-lt c digit in
            let one : n + 1 ≡ suc n = omega arith in
            let next : cap (n + 1) ≡ 16 * cap n = ap cap one in
            let fits' : acc * 16 + hex_value c < cap (n + 1) = omega arith in
            read_hex-lt s (n + 1) (acc * 16 + hex_value c) x (ground arith) fits'
              (rw (digit, room) at h)
        | inr full ↦ let here = rw (digit, full) at h in cc
      ]
      | inr other ↦ let here = rw other at h in ground arith
    ]

read_group-lt : (first : Bool) (s : Text) (x : ℕ × Text) → read_group first s ≡ some x → Word x.0
unfolding read_group
read_group-lt true s x h = read_hex-lt s 0 0 x (omega arith) (omega arith) h
read_group-lt false s x h = elim (Option-cases (read_colon s)) [
  | inl e ↦ let here = rw e at h in cc
  | inr (t, e) ↦ read_hex-lt t 0 0 x (omega arith) (omega arith) (rw e at h)
]

read_embedded-lt :
    (first : Bool) (s : Text) (x : ℕ × Text) → read_embedded first s ≡ some x → x.0 < 2 ^ 32
unfolding read_embedded
read_embedded-lt true s x h = read_ipv4_addr-lt s x h
read_embedded-lt false s x h = elim (Option-cases (read_colon s)) [
  | inl e ↦ let here = rw e at h in cc
  | inr (t, e) ↦ read_ipv4_addr-lt t x (rw e at h)
]

abbrev Fits : ℕ → Groups → Type 0
Fits n (gs, embedded, s) = (length gs ≤ n) × All Word gs

address_or-Fits :
    (n : ℕ) (o : Option (ℕ × Text)) (group : Groups)
    → ((x : ℕ × Text) → o ≡ some x → (1 ≤ n) × (x.0 < 2 ^ 32))
    → Fits (suc n) group
    → Fits (suc n) (address_or o group)
address_or-Fits n none group h f = f
address_or-Fits n (some x) group h f =
    let (room, small) = h x refl in (omega arith, (omega arith, (omega arith, tt)))

then_groups-Fits :
    (n : ℕ) (o : Option (ℕ × Text)) (s : Text) (more : Text → Groups)
    → ((x : ℕ × Text) → o ≡ some x → Word x.0)
    → ((rest : Text) → Fits n (more rest))
    → Fits (suc n) (then_groups o s more)
then_groups-Fits n none s more h f = (omega arith, tt)
then_groups-Fits n (some (g, rest)) s more h f =
    let (few, all_words) = f rest in (omega arith, (h (g, rest) refl, all_words))

embedded_at-lt :
    (n : ℕ) (first : Bool) (s : Text) (x : ℕ × Text)
    → embedded_at n first s ≡ some x
    → (1 ≤ n) × (x.0 < 2 ^ 32)
embedded_at-lt zero first s x h = cc
embedded_at-lt (suc n) first s x h =
    let room : ltb 0 (suc n) ≡ true = ground arith in
    (omega arith, read_embedded-lt first s x (rw room at h))

read_groups-Fits : (n : ℕ) (first : Bool) (s : Text) → Fits n (read_groups n first s)
unfolding read_groups
read_groups-Fits zero first s = (omega arith, tt)
read_groups-Fits (suc n) first s =
    address_or-Fits n (embedded_at n first s) _ (embedded_at-lt n first s) (
      then_groups-Fits n (read_group first s) s (λ rest. read_groups n false rest)
        (read_group-lt first s) (read_groups-Fits n false))

abbrev scale : ℕ → ℕ → ℕ
scale b zero = b
scale b (suc n) = scale (65536 * b) n

of_groups-lt :
    (gs : List ℕ) (acc b : ℕ) → All Word gs → acc < b → of_groups acc gs < scale b (length gs)
unfolding of_groups
of_groups-lt [] acc b w h = h
of_groups-lt (g ∷ gs) acc b w h =
    let small = w.0 in of_groups-lt gs (acc * 65536 + g) (65536 * b) w.1 (omega arith)

eight-lt : (gs : List ℕ) → All Word gs → length gs ≡ 8 → of_groups 0 gs < 2 ^ 128
eight-lt gs w e = rw e at (of_groups-lt gs 0 1 w (omega arith))

zeros-Word : (n : ℕ) → All Word (zeros n)
unfolding zeros
zeros-Word zero = tt
zeros-Word (suc n) = (omega arith, zeros-Word n)

length-zeros : (n : ℕ) → length (zeros n) ≡ n
unfolding zeros
length-zeros zero = refl
length-zeros (suc n) = omega (arith, length-zeros n)

with_tail-lt :
    (head : List ℕ) (tail : Groups)
    → All Word head
    → Fits (8 - (length head + 1)) tail
    → length head ≤ 8
    → (length head == 8) ≡ false
    → (with_tail head tail).0 < 2 ^ 128
with_tail-lt head (tail, embedded, s) w (few, v) le ne =
    let middle = zeros (8 - length head - length tail) in
    let apart : length head ≢ 8 = ground arith in
    eight-lt (head ++ middle ++ tail)
      (All-append Word (head ++ middle) tail (All-append Word head middle w (zeros-Word _)) v)
      (omega (
        arith,
        length-append (head ++ middle) tail,
        length-append head middle,
        length-zeros (8 - length head - length tail),
      ))

abbrev Below : Option (ℕ × Text) → Type 0
Below none = Unit
Below (some x) = x.0 < 2 ^ 128

behind_head-Below : (gs : Groups) → Fits 8 gs → Below (behind_head gs)
behind_head-Below (head, embedded, s) (few, w) = elim (Bool-cases (length head == 8)) [
  | inl e ↦ rw e (eight-lt head w (ground arith))
  | inr e ↦ elim (Bool-cases embedded) [
    | inl f ↦ rw (e, f) tt
    | inr f ↦
        rw (e, f)
          (elim (Option-cases (read_colon s)) [
            | inl g ↦ rw g tt
            | inr (t, g) ↦ rw g (elim (Option-cases (read_colon t)) [
              | inl k ↦ rw k tt
              | inr (u, k) ↦ rw k (
                  with_tail-lt head (read_groups (8 - (length head + 1)) true u) w
                    (read_groups-Fits (8 - (length head + 1)) true u) few e)
            ])
          ])
  ]
]

read_ipv6_addr-Below : (s : Text) → Below (read_ipv6_addr s)
unfolding read_ipv6_addr
read_ipv6_addr-Below s = behind_head-Below (read_groups 8 true s) (read_groups-Fits 8 true s)

at_end-lt : (o : Option (ℕ × Text)) (ip : ℕ) → Below o → at_end o ≡ some ip → ip < 2 ^ 128
at_end-lt none ip b h = cc
at_end-lt (some (a, [])) ip b h = let met : a ≡ ip = cc in rw met at b
at_end-lt (some (a, c ∷ s)) ip b h = cc

-- Only 128-bit addresses are read.
pub parse_ipv6-lt : (s : Text) (ip : ℕ) → parse_ipv6 s ≡ some ip → ip < 2 ^ 128
unfolding parse_ipv6
parse_ipv6-lt s ip h = at_end-lt (read_ipv6_addr s) ip (read_ipv6_addr-Below s) h
