-- ===== src/Connection/World.antt =====
-- What the connections do outside themselves: calls of the native libraries, which may raise, and
-- the resources that are open. The ledger `open_now` is of the model: it has what was acquired and
-- not released since, the last first.
use mountainash_transport.Prelude.{
  ℕ, ◌+◌, ◌≡◌, Bool, Option, none, some, List, [], ◌∷◌, if◌then◌else◌, ◌==◌, arith, Result, ok, err,
  ◌⊎◌, inl, inr, Option-cases,
}
use mountainash_transport.Connection.Failures.{Failure}

-- `raises n` is what the nth native call raises, and `answers n` what it says when it is asked.
pub record World : Type 0 where
  pub clock : ℕ
  pub raises : ℕ → Option Failure
  pub answers : ℕ → Bool
  pub open_now : List ℕ

abbrev pub tick : World → World
tick w = record w { clock = w.clock + 1 }

-- A native call that acquires a resource, named by the time of the call, or raises.
pub record Acquired : Type 0 where
  pub handle : Result Failure ℕ
  pub world : World

unfoldable pub acquire : World → Acquired
acquire w = elim (w.raises w.clock) [
  | none ↦ record {
    handle = ok w.clock;
    world = record w { clock = w.clock + 1; open_now = w.clock ∷ w.open_now };
  }
  | some f ↦ record { handle = err f; world = tick w }
]

-- Any other native call.
pub record Called : Type 0 where
  pub failure : Option Failure
  pub world : World

unfoldable pub call : World → Called
call w = record { failure = w.raises w.clock; world = tick w }

unfoldable pub remove : ℕ → List ℕ → List ℕ
remove h [] = []
remove h (x ∷ xs) = let rest = remove h xs in if x == h then xs else x ∷ rest

-- The native `close` of a resource: it is asked for once, whether or not it raises.
unfoldable pub release : ℕ → World → Called
release h w = record {
  failure = w.raises w.clock;
  world = record w { clock = w.clock + 1; open_now = remove h w.open_now };
}

pub remove-head : (h : ℕ) (xs : List ℕ) → remove h (h ∷ xs) ≡ xs
unfolding remove
remove-head h xs = ground arith

-- What an acquisition may do to the ledger.
pub record Acquires (w : World) (a : Acquired) : Type 0 where
  pub ends :
      ((h : ℕ) × (a.handle ≡ ok h) × (a.world.open_now ≡ h ∷ w.open_now))
      ⊎ ((f : Failure) × (a.handle ≡ err f) × (a.world.open_now ≡ w.open_now))

pub acquire-Acquires : (w : World) → Acquires w (acquire w)
unfolding acquire
acquire-Acquires w = record {
  ends = elim (Option-cases (w.raises w.clock)) [
    | inl p ↦ inl (w.clock, ground (arith, p), ground (arith, p))
    | inr (f, p) ↦ inr (f, ground (arith, p), ground (arith, p))
  ];
}
