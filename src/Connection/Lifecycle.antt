-- ===== src/Connection/Lifecycle.antt =====
-- The life of a connection over any sequence of its operations, against an abstract connection that
-- knows only whether it is connected (_core/protocols.py).
pub mod Stacks
use mountainash_transport.Prelude.{
  ℕ, ◌≡◌, refl, sym, ap, ◌∙◌, ◌⊎◌, inl, inr, Bool, true, false, Option, none, some, List, [], ◌∷◌,
  Result, ok, err, if◌then◌else◌, arith, Result-cases,
}
use mountainash_transport.Connection.Failures.{Raised}
use mountainash_transport.Connection.World.{World}
use mountainash_transport.Connection.Protocol.{
  Done, Protocol, Stance, Contract, exit, Released, Connected, Failed,
}

-- The operations; the last is the end of a `with` block, whose body may have raised.
pub data Op : Type 0 where
  op_connect op_disconnect : Op
  op_exit : Option Raised → Op

-- An operation that was called, and whether it returned.
pub record Event : Type 0 where
  pub op : Op
  pub returned : Bool

abbrev returns : Result Raised (Unit {0}) → Bool
returns (ok _) = true
returns (err x) = false

-- The abstract connection.
unfoldable pub spec_step : Event → Bool
spec_step e = elim e.op [ op_connect ↦ e.returned | op_disconnect ↦ false | op_exit body ↦ false ]

unfoldable pub spec_run : Bool → List Event → Bool
spec_run b [] = b
spec_run b (e ∷ es) = spec_run (spec_step e) es

pub record Trace (S : Type 0) : Type 0 where
  pub events : List Event
  pub state : S
  pub world : World

module _ {S : Type 0} (p : Protocol S) where
  unfoldable pub perform : Op → S → World → Done S
  perform op_connect s w = p.connect s w
  perform op_disconnect s w = p.disconnect s w
  perform (op_exit body) s w = exit p body s w

  unfoldable pub run : List Op → S → World → Trace S
  run [] s w = record { events = []; state = s; world = w }
  run (op ∷ ops) s w =
      let d = perform op s w in
      let t = run ops d.state d.world in
      record t { events = record { op = op; returned = returns d.result } ∷ t.events }

  -- The connection agrees with the abstract one, and over `rest` only what it holds while it is
  -- connected is open.
  pub record Refines (held : S → List ℕ → List ℕ) (rest : List ℕ) (b : Bool) (s : S) (w : World)
      : Type 0 where
    pub agrees : p.is_connected s ≡ b
    pub ledger : w.open_now ≡ (if b then held s rest else rest)

module _ {S : Type 0} (p : Protocol S) (i : Stance S) (c : Contract p i) (rest : List ℕ) where
  -- The invariant of a run.
  Standing : Bool → S → World → Type 0
  Standing b s w =
      ((b ≡ true) × i.IsValid s × (p.is_connected s ≡ true) × (w.open_now ≡ i.held s rest))
      ⊎ ((b ≡ false) × i.IsIdle s × (w.open_now ≡ rest))

  Standing-valid :
      (b : Bool) (s : S) (w : World) → Standing b s w → i.IsValid s × (w.open_now ≡ i.held s rest)
  unfolding Standing
  Standing-valid b s w (inl (e, v, j, o)) = (v, o)
  Standing-valid b s w (inr (e, idle, o)) = (c.valid idle, o ∙ sym (c.holds_nothing idle rest))

  exit-Released :
      (body : Option Raised) (s : S) (w : World)
      → Released p i rest (p.disconnect s w)
      → Released p i rest (exit p body s w)
  unfolding exit
  exit-Released body s w done = elim (Result-cases (p.disconnect s w).result) [
    | inl (u, a) ↦ record {
      idle = ground (arith, a, done.idle);
      freed = ground (arith, a, done.freed);
    }
    | inr (x, a) ↦ record {
      idle = ground (arith, a, done.idle);
      freed = ground (arith, a, done.freed);
    }
  ]

  perform-Standing :
      (op : Op) (b : Bool) (s : S) (w : World)
      → Standing b s w
      → let d = perform p op s w in
        Standing (spec_step (record { op = op; returned = returns d.result })) d.state d.world
  unfolding perform spec_step Standing
  perform-Standing op_connect b s w h =
      let (v, o) = Standing-valid b s w h in
      elim (c.connects rest s w v o) [
        | inl done ↦ inl (ap returns done.returned, done.valid, done.connected, done.holds)
        | inr done ↦ inr (ap returns done.raises, done.idle, done.freed)
      ]
  perform-Standing op_disconnect b s w h =
      let (v, o) = Standing-valid b s w h in
      let done = c.releases rest s w v o in inr (refl, done.idle, done.freed)
  perform-Standing (op_exit body) b s w h =
      let (v, o) = Standing-valid b s w h in
      let done = exit-Released body s w (c.releases rest s w v o) in
      inr (refl, done.idle, done.freed)

  run-Standing :
      (ops : List Op) (b : Bool) (s : S) (w : World)
      → Standing b s w
      → let t = run p ops s w in Standing (spec_run b t.events) t.state t.world
  unfolding run spec_run
  run-Standing [] b s w h = h
  run-Standing (op ∷ ops) b s w h =
      let d = perform p op s w in
      run-Standing ops (spec_step (record { op = op; returned = returns d.result })) d.state d.world
        (perform-Standing op b s w h)

  Standing-Refines : (b : Bool) (s : S) (w : World) → Standing b s w → Refines p i.held rest b s w
  unfolding Standing
  Standing-Refines b s w (inl (e, v, j, o)) = record {
    agrees = j ∙ sym e;
    ledger = ground (arith, e, o);
  }
  Standing-Refines b s w (inr (e, idle, o)) = record {
    agrees = c.unconnected idle ∙ sym e;
    ledger = ground (arith, e, o);
  }

  pub run-Refines :
      (ops : List Op) (s : S) (w : World)
      → i.IsIdle s
      → w.open_now ≡ rest
      → let t = run p ops s w in Refines p i.held rest (spec_run false t.events) t.state t.world
  unfolding Standing
  run-Refines ops s w idle o =
      let t = run p ops s w in
      Standing-Refines (spec_run false t.events) t.state t.world
        (run-Standing ops false s w (inr (refl, idle, o)))
