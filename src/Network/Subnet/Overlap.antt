-- ===== src/Network/Subnet/Overlap.antt =====
-- `overlaps`: what it decides, and that two subnets which overlap are nested.
use native.Mathlib.Nat.{
  mul-le-mul_left, mul_assoc, pow-suc, mul-suc, mul-add, lt_of_mul-lt-mul_left, add-zero, mul-one,
  add-suc,
}
use Prim.Native.Nat.{max}
use ingot_engine.Base.{
  ℕ, zero, suc, ◌+◌, ◌-◌, ◌*◌, ◌^◌, ◌<◌, ◌≤◌, ◌≡◌, ap, ◌∙◌, Bool, true, Option, some, arith, leb,
  ◌↔◌, ◌&&◌,
}
use ingot_engine.Base.Words.{Profile}
use ingot_engine.Network.Subnet.{Subnet, IsSubnet, overlaps, contains}
use ingot_engine.Network.Subnet.Range.{
  size, first_host, last_host, size-ge, first-le-last, usable_range_lem, contains_iff,
}

-- The closed form of the test.
abbrev pub Meets : Subnet → Subnet → Type 0
Meets s t = (first_host s ≤ last_host t) × (first_host t ≤ last_host s)

some_test :
    (a b c d : ℕ)
    → (◌≡◌ {A = Option Bool} (some (leb a b && leb c d)) (some true)) ↔ ((a ≤ b) × (c ≤ d))
some_test a b c d = ground arith

-- A power of two is a multiple of every smaller one.
pow_add : (d b : ℕ) → 2 ^ (b + d) ≡ 2 ^ b * 2 ^ d
pow_add zero b = rw (add-zero, mul-one)
pow_add (suc d) b = rw (add-suc, pow-suc, pow-suc, pow_add d b) (mul_assoc (2 ^ b) (2 ^ d) 2)

-- Blocks of c cells against one cell, over a grid of cell size b: to overlap is to contain.
grid_nested :
    (b x c r : ℕ)
    → 2 ≤ b
    → b * x + 1 ≤ b * r + b - 2
    → b * r + 1 ≤ b * x + b * c - 2
    → (b * x ≤ b * r) × (b * r + b ≤ b * x + b * c)
grid_nested b x c r h low high =
    let l : b * x < b * suc r = omega (arith, mul-suc b r) in
    let u : b * r < b * (x + c) = omega (arith, mul-add b x c) in
    let l' : x ≤ r = omega (arith, lt_of_mul-lt-mul_left b l) in
    let u' : suc r ≤ x + c = lt_of_mul-lt-mul_left b u in
    (mul-le-mul_left b l', omega (arith, mul-le-mul_left b u', mul-suc b r, mul-add b x c))

module _ (pr : Profile) (s t : Subnet) (vs : IsSubnet s) (vt : IsSubnet t) (ps : 1 ≤ s.prefix)
    (pt : 1 ≤ t.prefix) where
  overlaps_iff : (overlaps pr s t ≡ some true) ↔ Meets s t
  unfolding overlaps
  overlaps_iff = rw (usable_range_lem pr s vs ps, usable_range_lem pr t vt pt) (some_test _ _ _ _)

  -- Two subnets with prefixes of at least 1 overlap exactly when some address is a usable host of both. (On a
  -- subnet without a prefix a debug build panics.)
  pub overlaps-contains :
      (overlaps pr s t ≡ some true)
      ↔ ((ip : ℕ) × (contains pr s ip ≡ some true) × (contains pr t ip ≡ some true))
  overlaps-contains = (
    λ h.
        let m = overlaps_iff.0 h in
        (
          max (first_host s) (first_host t),
          (contains_iff pr s vs ps _).1 (omega (arith, first-le-last s vs)),
          (contains_iff pr t vt pt _).1 (omega (arith, first-le-last t vt)),
        ),
    λ (ip, p, q).
        let a = (contains_iff pr s vs ps ip).0 p in
        let b = (contains_iff pr t vt pt ip).0 q in overlaps_iff.1 (omega arith),
  )

  size_multiple : s.prefix ≤ t.prefix → size s ≡ size t * 2 ^ (t.prefix - s.prefix)
  size_multiple h =
      let e : 32 - s.prefix ≡ 32 - t.prefix + (t.prefix - s.prefix) =
        omega (arith, vt.leaves_hosts) in
      rw e (pow_add (t.prefix - s.prefix) (32 - t.prefix))

  -- Of two subnets that overlap, the one with the shorter prefix holds every host of the other.
  pub overlaps_nested :
      s.prefix ≤ t.prefix
      → overlaps pr s t ≡ some true
      → (first_host s ≤ first_host t) × (last_host t ≤ last_host s)
  overlaps_nested h o =
      let m = overlaps_iff.0 o in
      let c = 2 ^ (t.prefix - s.prefix) in
      let big = size_multiple h in
      let low : s.network ≡ size t * (c * vs.index) =
        vs.masked ∙ ap (λ x. x * vs.index) big ∙ mul_assoc (size t) c vs.index in
      let cell : 2 ≤ size t = omega (arith, size-ge t vt) in
      let n = grid_nested (size t) (c * vs.index) c vt.index cell in
      let fits =
        n (omega (arith, low, big, vt.masked, m.0)) (omega (arith, low, big, vt.masked, m.1)) in
      omega (arith, low, big, vt.masked, fits.0, fits.1, size-ge t vt)
