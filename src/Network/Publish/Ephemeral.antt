-- ===== src/Network/Publish/Ephemeral.antt =====
-- `allocate_ephemeral_port`: the port that is picked.
use ingot_engine.Base.{
  ℕ, zero, suc, ◌≡◌, ◌+◌, ◌≤◌, ◌<◌, refl, Bool, true, false, not, ◌&&◌, Option, none, some, List,
  [], ◌∷◌, ◌==◌, and-eq-true, elem, take, arith, Bool-cases, inl, inr, ◌⊎◌,
}
use native.Mathlib.Decide.{dec_lt}
use ingot_engine.Base.Text.{Text}
use ingot_engine.Network.Publish.{
  Host, Ports, host_port_free, used_ports, is_open, first_pick, scan_ports, or_scan,
  allocate_ephemeral_port,
}

first_pick-accepts :
    (accepts : ℕ → Bool) (picks : List (Option ℕ)) (p : ℕ)
    → first_pick accepts picks ≡ some p
    → accepts p ≡ true
unfolding first_pick
first_pick-accepts accepts [] p e = cc
first_pick-accepts accepts (none ∷ picks) p e = first_pick-accepts accepts picks p e
first_pick-accepts accepts (some q ∷ picks) p e = elim (Bool-cases (not (q == 0) && accepts q)) [
  | inl h ↦
      let here = rw h at e in
      let met : q ≡ p = cc in rw met at ((and-eq-true (not (q == 0)) (accepts q) h).1)
  | inr h ↦ first_pick-accepts accepts picks p (rw h at e)
]

scan_ports_lem :
    (accepts : ℕ → Bool) (n c : ℕ)
    → (accepts (scan_ports accepts n c) ≡ true)
      ⊎ ((scan_ports accepts n c ≡ 32768) × ((q : ℕ) → c ≤ q → q < c + n → accepts q ≡ false))
unfolding scan_ports
scan_ports_lem accepts zero c = inr (refl, λ q lo hi. absurd (omega arith))
scan_ports_lem accepts (suc n) c = elim (Bool-cases (accepts c)) [
  | inl h ↦ inl (rw h h)
  | inr h ↦ elim (scan_ports_lem accepts n (c + 1)) [
    | inl ok ↦ inl (rw h ok)
    | inr (e, none_there) ↦ inr (
      rw h e,
      λ q lo hi. elim (dec_lt c q) [
        | yes later ↦ none_there q (omega arith) (omega arith)
        | no now ↦ let met : q ≡ c = omega arith in rw met h
      ],
    )
  ]
]

or_scan_lem :
    (accepts : ℕ → Bool) (o : Option ℕ)
    → ((p : ℕ) → o ≡ some p → accepts p ≡ true)
    → (accepts (or_scan accepts o) ≡ true)
      ⊎ ((or_scan accepts o ≡ 32768) × ((q : ℕ) → 32768 ≤ q → q ≤ 60999 → accepts q ≡ false))
or_scan_lem accepts (some p) h = inl (h p refl)
or_scan_lem accepts none h = elim (scan_ports_lem accepts 28232 32768) [
  | inl ok ↦ inl ok
  | inr (e, absent) ↦ inr (e, λ q lo hi. absent q lo (omega arith))
]

-- The port that `allocate_ephemeral_port` returns, whatever the kernel picks, is published by no rule of
-- the protocol and free on the host; only where no port from 32768 to 60999 is both does it return
-- 32768 all the same.
pub allocate_ephemeral_port_lem :
    (host : Host) (picks : List (Option ℕ)) (proto : Text) (s : Ports)
    → let p = allocate_ephemeral_port host picks proto s in
      let used = used_ports proto s.published in
      ((elem p used ≡ false) × (host_port_free host [] p proto ≡ true))
      ⊎ ((p ≡ 32768) × ((q : ℕ) → 32768 ≤ q → q ≤ 60999 → is_open host proto used q ≡ false))
unfolding allocate_ephemeral_port
allocate_ephemeral_port_lem host picks proto s =
    let used = used_ports proto s.published in
    let accepts = is_open host proto used in
    elim (or_scan_lem accepts (first_pick accepts (take 16 picks))
      (first_pick-accepts accepts (take 16 picks))) [
        | inl ok ↦ inl (ground arith, ground arith)
        | inr absent ↦ inr absent
      ]
