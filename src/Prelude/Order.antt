-- ===== src/Prelude/Order.antt =====
-- The comparison functions that Go code passes to `sort`: chains of `if a.k != b.k` over keys.
use Prim.Native.Nat.{ℕ}
use mathlib.Core.Path.{◌≡◌}
use mathlib.Core.Logic.{◌⊎◌, ◌↔◌, inl, inr}
use mathlib.Core.Bool.{Bool, true, false}
use native.Mathlib.Omega.{arith}
use text.Mathlib.Text.{◌==◌}
use text.Mathlib.TextEquality.{eq_iff}
use kubeguard.Prelude.Tests.{if◌then◌else◌, ltb, nat_eq}
use kubeguard.Prelude.Text.{str_lt, str_lt_irrefl, str_lt_trans, str_lt_connex}
use kubeguard.Prelude.Sort.{IsWeakOrder}

-- A strict total order on keys, with the test for equal keys.
pub record IsKeyOrder {K : Type 0} (lt eq : K → K → Bool) : Type 0 where
  pub eq_spec : (a b : K) → (eq a b ≡ true) ↔ (a ≡ b)
  pub irrefl : (a : K) → lt a a ≡ false
  pub trans : (a b c : K) → lt a b ≡ true → lt b c ≡ true → lt a c ≡ true
  pub connex : (a b : K) → (lt a b ≡ true) ⊎ (a ≡ b) ⊎ (lt b a ≡ true)

pub str-IsKeyOrder : IsKeyOrder str_lt ◌==◌
str-IsKeyOrder = record {
  eq_spec = eq_iff;
  irrefl = str_lt_irrefl;
  trans = str_lt_trans;
  connex = str_lt_connex;
}

abbrev pub gtb : ℕ → ℕ → Bool
gtb a b = ltb b a

pub gtb-IsKeyOrder : IsKeyOrder gtb nat_eq
gtb-IsKeyOrder = record {
  eq_spec = λ a b. ground arith;
  irrefl = λ a. ground arith;
  trans = λ a b c h k. ground arith;
  connex = λ a b. ground arith;
}

pub ltb-IsKeyOrder : IsKeyOrder ltb nat_eq
ltb-IsKeyOrder = record {
  eq_spec = λ a b. ground arith;
  irrefl = λ a. ground arith;
  trans = λ a b c h k. ground arith;
  connex = λ a b. ground arith;
}

module _ {K : Type 0} {lt eq : K → K → Bool} (o : IsKeyOrder lt eq) where
  key-asymm : (a b : K) → lt a b ≡ true → lt b a ≡ false
  key-asymm a b h = ground (arith, o.trans a b a h, o.irrefl a)

  key-ge_trans : (a b c : K) → lt b a ≡ false → lt c b ≡ false → lt c a ≡ false
  key-ge_trans a b c h k = ground (
    arith,
    o.connex a b,
    o.connex b c,
    o.connex a c,
    o.trans c a b,
    o.trans b c a,
    o.irrefl a,
    o.trans c a c,
    o.irrefl c,
  )

  -- The last comparison of a chain.
  pub last-IsWeakOrder : {A : Type 0} (key : A → K) → IsWeakOrder (λ a b. lt (key a) (key b))
  last-IsWeakOrder key = record {
    asymm = λ a b. key-asymm (key a) (key b);
    ge_trans = λ a b c. key-ge_trans (key a) (key b) (key c);
  }

  -- What it means that a chain does not put key `b` before key `a`; `r` is the rest of the chain.
  pub not_next :
      (a b : K) (r : Bool)
      → (if eq b a then r else lt b a) ≡ false
      → (lt a b ≡ true) ⊎ ((a ≡ b) × (r ≡ false))
  not_next a b r h = elim (o.connex a b) [
    | inl l ↦ inl l
    | inr (inl e) ↦ inr (e, ground (arith, o.eq_spec b a))
    | inr (inr g) ↦ ground (arith, o.eq_spec b a, o.irrefl b)
  ]

  -- A key that decides unless it is equal, and then the rest of the chain.
  pub next-IsWeakOrder :
      {A : Type 0} (key : A → K) {rest : A → A → Bool}
      → IsWeakOrder rest
      → IsWeakOrder (λ a b. if eq (key a) (key b) then rest a b else lt (key a) (key b))
  next-IsWeakOrder key {rest} w = record {
    asymm = λ a b h. ground (
      arith,
      o.eq_spec (key a) (key b),
      o.eq_spec (key b) (key a),
      w.asymm a b,
      key-asymm (key a) (key b),
    );
    ge_trans = λ a b c h k. ground (
      arith,
      o.eq_spec (key b) (key a),
      o.eq_spec (key c) (key b),
      o.eq_spec (key c) (key a),
      key-ge_trans (key a) (key b) (key c),
      o.connex (key a) (key b),
      w.ge_trans a b c,
      o.irrefl (key a),
    );
  }
