-- ===== src/Runtime/Options/Bounds.antt =====
-- The ranges of what the validators let through.
use ingot_engine.Base.{
  ℕ, ◌≤◌, ◌≡◌, ◌⊎◌, refl, Bool, true, not, ◌&&◌, ◌||◌, Option, none, some, List, [], ◌∷◌, ◌==◌, leb,
  all, ok, ok-injective, arith, Bool-cases, Option-cases, inl, inr,
}
use mathlib.Core.Path.{subst}
use ingot_engine.Base.Text.{Text, codes, same, same_iff, trim, split_once}
use ingot_engine.Base.Text.Decimal.{parse_u16, parse_unsigned-le}
use ingot_engine.Builder.Given.{Given}
use ingot_engine.Runtime.Options.{
  port_and_proto, nonzero, split_exposed_key, parse_i32, signals, find_signal, by_number,
  parse_signal,
}

nonzero-port :
    (o : Option ℕ) (proto : Text) (p : ℕ) (t : Text)
    → nonzero o proto ≡ some (p, t)
    → ((n : ℕ) → o ≡ some n → n ≤ 65535)
    → (1 ≤ p) × (p ≤ 65535) × (proto ≡ t)
nonzero-port none proto p t h top = cc h
nonzero-port (some n) proto p t h top = elim (Bool-cases (n == 0)) [
  | inl e ↦ let bad = rw e at h in cc bad
  | inr e ↦
      let kept = rw e at h in
      let same_port : n ≡ p = cc kept in
      let bound = top n refl in (ground arith, omega arith, cc kept)
]

protocol :
    (t : Text)
    → (same t (codes "tcp") || same t (codes "udp")) ≡ true
    → (t ≡ codes "tcp") ⊎ (t ≡ codes "udp")
protocol t h = elim (Bool-cases (same t (codes "tcp"))) [
  | inl e ↦ inl ((same_iff t (codes "tcp")).0 e)
  | inr e ↦ inr ((same_iff t (codes "udp")).0 (rw e at h))
]

-- A key of an exposed port that is accepted has a port from 1 to 65535 and the protocol tcp or udp.
pub split_exposed_key_bounds :
    (k : Text) (p : ℕ) (proto : Text)
    → split_exposed_key k ≡ some (p, proto)
    → (1 ≤ p) × (p ≤ 65535) × ((proto ≡ codes "tcp") ⊎ (proto ≡ codes "udp"))
unfolding split_exposed_key
split_exposed_key_bounds k p proto h =
    let (port, t) = port_and_proto k (split_once b'/' k) in
    elim (Bool-cases (same t (codes "tcp") || same t (codes "udp"))) [
      | inl e ↦
          let (low, high, eq) =
            nonzero-port (parse_u16 port) t p proto (rw e at h) (parse_unsigned-le 65535 port) in
          (low, high, subst (λ x. (x ≡ codes "tcp") ⊎ (x ≡ codes "udp")) eq (protocol t e))
      | inr e ↦ let bad = rw e at h in cc bad
    ]

find_signal_bounds :
    (name : Text) (table : List (Text × ℕ)) (n : ℕ)
    → all (λ (x : Text × ℕ). leb 1 x.1 && leb x.1 64) table ≡ true
    → find_signal name table ≡ ok n
    → (1 ≤ n) × (n ≤ 64)
unfolding find_signal all
find_signal_bounds name [] n h e = cc e
find_signal_bounds name ((m, num) ∷ rest) n h e = elim (Bool-cases (same name m)) [
  | inl s ↦ let eq : num ≡ n = ok-injective (rw s at e) in (ground arith, ground arith)
  | inr s ↦ find_signal_bounds name rest n (ground arith) (rw s at e)
]

signals_in_range : all (λ (x : Text × ℕ). leb 1 x.1 && leb x.1 64) signals ≡ true
unfolding signals all
signals_in_range = refl

by_number_bounds : (x : Bool × ℕ) (n : ℕ) → by_number x ≡ ok n → (1 ≤ n) × (n ≤ 64)
by_number_bounds (negative, m) n h = elim (Bool-cases (not negative && leb 1 m && leb m 64)) [
  | inl e ↦ let eq : m ≡ n = ok-injective (rw e at h) in (ground arith, ground arith)
  | inr e ↦ let bad = rw e at h in cc bad
]

-- Whatever is accepted as a signal, by number, by name or with SIG in front, is one of the signals 1 to 64.
pub parse_signal_bounds :
    (g : Given) (s : Text) (n : ℕ) → parse_signal g s ≡ ok n → (1 ≤ n) × (n ≤ 64)
unfolding parse_signal
parse_signal_bounds g s n h = elim (Option-cases (parse_i32 (trim s))) [
  | inl e ↦ find_signal_bounds _ signals n signals_in_range (rw (parse_signal, e) at h)
  | inr (x, e) ↦ by_number_bounds x n (rw (parse_signal, e) at h)
]
