-- ===== src/Connection/Protocol.antt =====
-- _core/protocols.py, ConnectionProtocol: its operations on a state, what its documentation asks of
-- them, and the context manager that every implementation repeats.
use mountainash_transport.Prelude.{
  ℕ, ◌≡◌, ◌⊎◌, Bool, true, false, Option, none, some, List, ◌∷◌, Result, ok, err,
}
use mountainash_transport.Connection.Failures.{Raised, with_cleanup}
use mountainash_transport.Connection.World.{World}

-- What a call leaves: what it returned or raised, the state and the world.
pub record Done (S : Type 0) : Type 0 where
  pub result : Result Raised (Unit {0})
  pub state : S
  pub world : World

pub record Protocol (S : Type 0) : Type 0 where
  pub connect : S → World → Done S
  pub disconnect : S → World → Done S
  pub client : S → Option ℕ
  pub is_connected : S → Bool

-- `__exit__`, given the exception of the body.
unfoldable pub exit : {S : Type 0} → Protocol S → Option Raised → S → World → Done S
exit p body s w =
    let done = p.disconnect s w in
    elim done.result [
      | ok _ ↦ record done { result = elim body [ none ↦ ok tt | some x ↦ err x ] }
      | err cleanup ↦ record done {
        result = elim body [ none ↦ err cleanup | some x ↦ err (with_cleanup x cleanup) ];
      }
    ]

-- The states, as an implementation tells them: `held s rest` is the ledger where `s` holds its
-- resources over `rest`.
pub record Stance (S : Type 0) : Type 1 where
  pub held : S → List ℕ → List ℕ
  pub IsValid : S → Type 0
  pub IsIdle : S → Type 0

-- A resource that is held or not, over `rest`.
abbrev pub holding : Option ℕ → List ℕ → List ℕ
holding none rest = rest
holding (some h) rest = h ∷ rest

module _ {S : Type 0} (p : Protocol S) (i : Stance S) (rest : List ℕ) where
  -- A connect returned: the connection is connected, and what it opened it holds.
  pub record Connected (d : Done S) : Type 0 where
    pub returned : d.result ≡ ok tt
    pub valid : i.IsValid d.state
    pub connected : p.is_connected d.state ≡ true
    pub holds : d.world.open_now ≡ i.held d.state rest

  -- It raised: nothing is left open.
  pub record Failed (d : Done S) : Type 0 where
    pub failure : Raised
    pub raises : d.result ≡ err failure
    pub idle : i.IsIdle d.state
    pub freed : d.world.open_now ≡ rest

  -- After a disconnect, whatever it raised.
  pub record Released (d : Done S) : Type 0 where
    pub idle : i.IsIdle d.state
    pub freed : d.world.open_now ≡ rest

-- What a connection promises, to a decorator that owns it.
pub record Contract {S : Type 0} (p : Protocol S) (stance : Stance S) : Type 0 where
  pub valid : {s : S} → stance.IsIdle s → stance.IsValid s
  pub holds_nothing : {s : S} → stance.IsIdle s → (rest : List ℕ) → stance.held s rest ≡ rest
  pub unconnected : {s : S} → stance.IsIdle s → p.is_connected s ≡ false
  pub again :
      {s : S}
      → stance.IsIdle s
      → (w : World) → p.disconnect s w ≡ record { result = ok tt; state = s; world = w }
  pub releases :
      (rest : List ℕ) (s : S) (w : World)
      → stance.IsValid s
      → w.open_now ≡ stance.held s rest
      → Released p stance rest (p.disconnect s w)
  pub connects :
      (rest : List ℕ) (s : S) (w : World)
      → stance.IsValid s
      → w.open_now ≡ stance.held s rest
      → Connected p stance rest (p.connect s w) ⊎ Failed p stance rest (p.connect s w)
