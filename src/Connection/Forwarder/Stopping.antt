-- ===== src/Connection/Forwarder/Stopping.antt =====
-- connections/tunnel.py, _Forwarder: what a stop closes, whatever the threads do meanwhile.
use mountainash_transport.Prelude.{
  ℕ, ◌≤◌, ◌<◌, ◌≡◌, refl, sym, ◌∙◌, subst, ◌⊎◌, Bool, true, false, not, ◌&&◌, List, [], ◌∷◌, ◌is◌,
  nat_eq, contains, arith,
}
use mountainash_transport.Connection.Forwarder.{
  Server, polling, accepted, refusing, starting, start_failed, unregistering, ended, Worker,
  popping, gone, Stopper, uncalled, closing_server, closing, returned, Steps, none_yet, and_then,
  System, update, discard, initial, Step, accept, end_serving, register, find_stopped, refuse,
  start, fail_start, close_failed, unregister, serve, skip, served, close_request, pop_request,
  set_stop, close_server, close_next, return_stop, Reach, begin, later, in_hand,
}

contains-discard : (x r : ℕ) (l : List ℕ) → contains (discard x l) r ≡ contains l r && not (x is r)
unfolding discard
contains-discard x r [] = refl
contains-discard x r (y ∷ l) = ground (arith, contains-discard x r l)

-- What is left for a stop to close.
abbrev pending : Stopper → List ℕ → List ℕ
pending uncalled requests = requests
pending (closing_server rs) requests = rs
pending (closing rs) requests = rs
pending returned requests = []

-- The listener has been closed.
abbrev listener_done : Stopper → Bool
listener_done (closing rs) = true
listener_done returned = true
listener_done _ = false

abbrev is_called : Stopper → Bool
is_called uncalled = false
is_called _ = true

-- A worker, and the serving thread, that have closed the socket.
abbrev has_closed : Worker → Bool
has_closed popping = true
has_closed gone = true
has_closed _ = false

abbrev has_unregistered : Server → ℕ → Bool
has_unregistered (unregistering q) r = q is r
has_unregistered _ r = false

-- What holds of each socket.
abbrev Inv : System → ℕ → Type 0
Inv s r =
    (s.stop ≡ is_called s.stopper)
    × ((has_closed (s.worker r) ≡ false) ⊎ (s.is_closed r ≡ true))
    × ((has_unregistered s.server r ≡ false) ⊎ (s.is_closed r ≡ true))
    × ((s.accepted_so_far ≤ r)
        ⊎ (s.is_closed r ≡ true)
        ⊎ (contains s.requests r ≡ true)
        ⊎ (in_hand s.server r ≡ true))
    × ((contains s.requests r ≡ false)
        ⊎ (s.is_closed r ≡ true)
        ⊎ (contains (pending s.stopper s.requests) r ≡ true))
    × ((listener_done s.stopper ≡ false) ⊎ (s.listener_open ≡ false))

Inv-initial : (r : ℕ) → Inv initial r
Inv-initial r = ground arith

Step-Inv : {s t : System} → Step s t → (r : ℕ) → Inv s r → Inv t r
unfolding update
Step-Inv {s} (accept a b) r i = ground (arith, i, a)
Step-Inv {s} (end_serving a b) r i = ground (arith, i, a)
Step-Inv {s} (register a b) r i = ground (arith, i, a, b)
Step-Inv {s} (find_stopped a b) r i = ground (arith, i, a)
Step-Inv {s} (refuse a) r i = ground (arith, i, a)
Step-Inv {s} (start a) r i = ground (arith, i, a)
Step-Inv {s} (fail_start a) r i = ground (arith, i, a)
Step-Inv {s} (close_failed a) r i = ground (arith, i, a)
Step-Inv {s} (unregister {r = q} a) r i = ground (arith, i, a, contains-discard q r s.requests)
Step-Inv {s} (serve a b) r i = ground (arith, i, a)
Step-Inv {s} (skip a b) r i = ground (arith, i, a)
Step-Inv {s} (served a) r i = ground (arith, i, a)
Step-Inv {s} (close_request a) r i = ground (arith, i, a)
Step-Inv {s} (pop_request {r = q} a) r i = ground (arith, i, a, contains-discard q r s.requests)
Step-Inv {s} (set_stop a) r i = ground (arith, i, a)
Step-Inv {s} (close_server a) r i = ground (arith, i, a)
Step-Inv {s} (close_next a) r i = ground (arith, i, a)
Step-Inv {s} (return_stop a) r i = ground (arith, i, a)

Reach-Inv : {s : System} → Reach s → (r : ℕ) → Inv s r
Reach-Inv begin r = Inv-initial r
Reach-Inv (later reach step) r = Step-Inv step r (Reach-Inv reach r)

-- In every state that the threads of a new forwarder can reach, however they are interleaved, when
-- `request_stop` has returned, the listener is closed and so is every socket ever accepted, but for
-- the one, if any, that the serving thread has accepted and not yet dealt with or is refusing.
pub returned-Closed :
    {s : System} (r : ℕ)
    → Reach s
    → s.stopper ≡ returned
    → r < s.accepted_so_far
    → (s.listener_open ≡ false)
      × ((s.is_closed r ≡ true) ⊎ (s.server ≡ accepted r) ⊎ (s.server ≡ refusing r))
returned-Closed {s} r reach h lt = ground (arith, Reach-Inv reach r, h, lt)

-- The serving thread ends, in so many steps of its own.
record Ends (s : System) : Type 0 where
  pub count : ℕ
  pub last : System
  pub steps : Steps s count last
  pub few : count ≤ 3
  pub over : last.server ≡ ended
  pub same_stopper : last.stopper ≡ s.stopper
  pub no_more : last.accepted_so_far ≡ s.accepted_so_far

ends : (s : System) → Reach s → s.stop ≡ true → Ends s
unfolding update
ends s reach h = by s.server refl
  where
    by : (p : Server) → s.server ≡ p → Ends s
    by polling e = record {
      count = 1;
      last = _;
      steps = and_then none_yet (end_serving e h);
      few = omega arith;
      over = refl;
      same_stopper = refl;
      no_more = refl;
    }
    by (accepted r) e = record {
      count = 3;
      last = _;
      steps =
          and_then (and_then (and_then none_yet (find_stopped e h)) (refuse refl))
            (end_serving refl h);
      few = omega arith;
      over = refl;
      same_stopper = refl;
      no_more = refl;
    }
    by (refusing r) e = record {
      count = 2;
      last = _;
      steps = and_then (and_then none_yet (refuse e)) (end_serving refl h);
      few = omega arith;
      over = refl;
      same_stopper = refl;
      no_more = refl;
    }
    by (starting r) e = record {
      count = 2;
      last = _;
      steps = and_then (and_then none_yet (start e)) (end_serving refl h);
      few = omega arith;
      over = refl;
      same_stopper = refl;
      no_more = refl;
    }
    by (start_failed r) e = record {
      count = 3;
      last = _;
      steps =
          and_then (and_then (and_then none_yet (close_failed e)) (unregister refl))
            (end_serving refl h);
      few = omega arith;
      over = refl;
      same_stopper = refl;
      no_more = refl;
    }
    by (unregistering r) e = record {
      count = 2;
      last = _;
      steps = and_then (and_then none_yet (unregister e)) (end_serving refl h);
      few = omega arith;
      over = refl;
      same_stopper = refl;
      no_more = refl;
    }
    by ended e = record {
      count = 0;
      last = s;
      steps = none_yet;
      few = omega arith;
      over = e;
      same_stopper = refl;
      no_more = refl;
    }

reach_on : {s t : System} {n : ℕ} → Reach s → Steps s n t → Reach t
reach_on reach none_yet = reach
reach_on reach (and_then steps step) = later (reach_on reach steps) step

-- From every reachable state in which `request_stop` has returned, there are at most three steps
-- that bring the serving thread to its end, and then any socket that was accepted is closed.
pub returned-Ends :
    {s : System} (r : ℕ)
    → Reach s
    → s.stopper ≡ returned
    → r < s.accepted_so_far
    → (n : ℕ) × (t : System) × Steps s n t × (n ≤ 3) × (t.server ≡ ended) × (t.is_closed r ≡ true)
returned-Ends {s} r reach h lt =
    let e = ends s reach (ground (arith, Reach-Inv reach r, h)) in
    let closed =
      returned-Closed r (reach_on reach e.steps) (e.same_stopper ∙ h)
        (subst (λ n. r < n) (sym e.no_more) lt) in
    (e.count, e.last, e.steps, e.few, e.over, ground (arith, closed, e.over))
