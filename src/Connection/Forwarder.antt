-- ===== src/Connection/Forwarder.antt =====
-- connections/tunnel.py, _Forwarder: its threads, interleaved at the accesses of what they share. A
-- block under the lock is one step. Sockets are numbered as they are accepted.
pub mod Stopping
use mountainash_transport.Prelude.{
  ℕ, ◌+◌, ◌<◌, ◌≡◌, Bool, true, false, not, ◌||◌, List, [], ◌∷◌, if◌then◌else◌, ◌is◌, nat_eq,
}

-- The thread that serves: between two connections, with one that is accepted and not registered
-- yet, about to refuse it, about to start its worker, or after a start that failed.
pub data Server : Type 0 where
  polling : Server
  accepted refusing starting start_failed unregistering : ℕ → Server
  ended : Server

-- A worker: not started, at its start, in `finish_request`, at its `finally`, after the close.
pub data Worker : Type 0 where
  unborn born serving finishing popping gone : Worker

-- The thread that stops: not called yet, with the requests that it has taken, at the close of the
-- listener or of what is left of them, and after its return.
pub data Stopper : Type 0 where
  uncalled : Stopper
  closing_server closing : List ℕ → Stopper
  returned : Stopper

pub record System : Type 0 where
  pub stop : Bool
  pub requests : List ℕ
  pub listener_open : Bool
  pub accepted_so_far : ℕ
  pub is_closed : ℕ → Bool
  pub server : Server
  pub worker : ℕ → Worker
  pub stopper : Stopper

unfoldable pub update {ℓ} : {A : Type ℓ} → ℕ → A → (ℕ → A) → ℕ → A
update i a f j = if i is j then a else f j

-- `self._requests.pop(request, None)`
unfoldable pub discard : ℕ → List ℕ → List ℕ
discard r [] = []
discard r (x ∷ xs) = let rest = discard r xs in if x is r then rest else x ∷ rest

abbrev pub initial : System
initial = record {
  stop = false;
  requests = [];
  listener_open = true;
  accepted_so_far = 0;
  is_closed = λ r. false;
  server = polling;
  worker = λ r. unborn;
  stopper = uncalled;
}

pub data Step (s : System) : System → Type 0 where
  -- `_serve` and `_start_request`
  accept :
      s.server ≡ polling
      → s.listener_open ≡ true
      → Step s (record s {
        server = accepted s.accepted_so_far;
        accepted_so_far = s.accepted_so_far + 1;
      })
  end_serving : s.server ≡ polling → s.stop ≡ true → Step s (record s { server = ended })
  register :
      {r : ℕ}
      → s.server ≡ accepted r
      → s.stop ≡ false
      → Step s (record s { server = starting r; requests = r ∷ s.requests })
  find_stopped :
      {r : ℕ} → s.server ≡ accepted r → s.stop ≡ true → Step s (record s { server = refusing r })
  refuse :
      {r : ℕ}
      → s.server ≡ refusing r
      → Step s (record s { server = polling; is_closed = update r true s.is_closed })
  start :
      {r : ℕ}
      → s.server ≡ starting r
      → Step s (record s { server = polling; worker = update r born s.worker })
  fail_start : {r : ℕ} → s.server ≡ starting r → Step s (record s { server = start_failed r })
  close_failed :
      {r : ℕ}
      → s.server ≡ start_failed r
      → Step s (record s { server = unregistering r; is_closed = update r true s.is_closed })
  unregister :
      {r : ℕ}
      → s.server ≡ unregistering r
      → Step s (record s { server = polling; requests = discard r s.requests })
  -- `_run_request`
  serve :
      {r : ℕ}
      → s.worker r ≡ born
      → s.stop ≡ false
      → Step s (record s { worker = update r serving s.worker })
  skip :
      {r : ℕ}
      → s.worker r ≡ born
      → s.stop ≡ true
      → Step s (record s { worker = update r finishing s.worker })
  served :
      {r : ℕ} → s.worker r ≡ serving → Step s (record s { worker = update r finishing s.worker })
  close_request :
      {r : ℕ}
      → s.worker r ≡ finishing
      → Step s
          (record s { worker = update r popping s.worker; is_closed = update r true s.is_closed })
  pop_request :
      {r : ℕ}
      → s.worker r ≡ popping
      → Step s (record s { worker = update r gone s.worker; requests = discard r s.requests })
  -- `request_stop`
  set_stop :
      s.stopper ≡ uncalled → Step s (record s { stop = true; stopper = closing_server s.requests })
  close_server :
      {rs : List ℕ}
      → s.stopper ≡ closing_server rs
      → Step s (record s { listener_open = false; stopper = closing rs })
  close_next :
      {r : ℕ} {rs : List ℕ}
      → s.stopper ≡ closing (r ∷ rs)
      → Step s (record s { is_closed = update r true s.is_closed; stopper = closing rs })
  return_stop : s.stopper ≡ closing [] → Step s (record s { stopper = returned })

pub data Reach : System → Type 0 where
  begin : Reach initial
  later : {s t : System} → Reach s → Step s t → Reach t

-- Some steps after one another.
pub data Steps (s : System) : ℕ → System → Type 0 where
  none_yet : Steps s 0 s
  and_then : {n : ℕ} {t u : System} → Steps s n t → Step t u → Steps s (n + 1) u

-- The socket that the serving thread has and that no worker or registration accounts for.
abbrev pub in_hand : Server → ℕ → Bool
in_hand (accepted q) r = q is r
in_hand (refusing q) r = q is r
in_hand _ r = false
