-- ===== src/Storage/Transfer/Closed.antt =====
-- The actions of `copy_between` in storage/facade/cross_backend.py.
use mountainash_transport.Prelude.{
  ℕ, ◌≡◌, refl, Bool, true, false, ◌&&◌, Option, none, some, List, [], ◌∷◌, Text, Result, ok, err,
  ◌⊎◌, inl, inr, All, if◌then◌else◌,
}
use mountainash_transport.Errors.{Error, storage_connection}
use mountainash_transport.Location.Schemes.{Platform}
use mountainash_transport.Transform.Pipeline.{StreamTransform, Pipeline}
use mountainash_transport.Storage.Facade.{Facade, copies, BackendCall, Run, Operation, dispatch}
use mountainash_transport.Storage.Facade.Dispatch.{paths_of, Checked, Safe, dispatch-Safe}
use mountainash_transport.Storage.Transfer.{
  Action, copied, opened, written, closed, World, Outcome, close_after, write_from, stream_through,
  native, is_none, copy_between,
}

module _ (P : Platform) (fuel : ℕ) (S : Type 0) (suffix : Text → Text)
    (default_gzip : StreamTransform S) where
  -- The paths of an action were checked by the facade of the backend that it is a call of.
  abbrev pub IsChecked : Facade → Facade → Action → Type 0
  IsChecked source destination (copied call) =
      All (Checked P fuel S suffix default_gzip source) (paths_of call)
  IsChecked source destination (opened call) =
      All (Checked P fuel S suffix default_gzip source) (paths_of call)
  IsChecked source destination (written call) =
      All (Checked P fuel S suffix default_gzip destination) (paths_of call)
  IsChecked source destination closed = Unit

  -- Nothing, a native copy, or the source opened, at most one write, and the source closed.
  pub data IsComplete : List Action → Type 0 where
    nothing : IsComplete []
    natively : (call : BackendCall) → IsComplete (copied call ∷ [])
    unwritten : (call : BackendCall) → IsComplete (opened call ∷ closed ∷ [])
    through : (call call' : BackendCall) → IsComplete (opened call ∷ written call' ∷ closed ∷ [])

  -- A copy that ends.
  pub record Ends (source destination : Facade) (o : Outcome P fuel S suffix default_gzip)
      : Type 0 where
    pub complete : (o.result ≡ none) ⊎ IsComplete o.actions
    pub checked : All (IsChecked source destination) o.actions

  native-Ends :
      (w : World) (source destination : Facade) (call : Run BackendCall)
      → Safe P fuel S suffix default_gzip source call
      → Ends source destination (native P fuel S suffix default_gzip w call)
  unfolding native
  native-Ends w source destination none h = record { complete = inl refl; checked = tt }
  native-Ends w source destination (some (err x)) h = record {
    complete = inr nothing;
    checked = tt;
  }
  native-Ends w source destination (some (ok call)) h = record {
    complete = inr (natively call);
    checked = (h.given, tt);
  }

  write_from-Ends :
      (w : World) (source destination : Facade) (opening : BackendCall) (call : Run BackendCall)
      → All (Checked P fuel S suffix default_gzip source) (paths_of opening)
      → Safe P fuel S suffix default_gzip destination call
      → Ends source destination (write_from P fuel S suffix default_gzip w opening call)
  unfolding write_from close_after
  write_from-Ends w source destination opening none s h = record {
    complete = inl refl;
    checked = (s, tt);
  }
  write_from-Ends w source destination opening (some (err x)) s h = record {
    complete = inr (unwritten opening);
    checked = (s, (tt, tt));
  }
  write_from-Ends w source destination opening (some (ok call)) s h = record {
    complete = inr (through opening call);
    checked = (s, (h.given, (tt, tt)));
  }

  stream_through-Ends :
      (w : World) (source destination : Facade) (path : Text) (pipeline : Option (Pipeline S))
      (call : Run BackendCall)
      → Safe P fuel S suffix default_gzip source call
      → Ends source destination
          (stream_through P fuel S suffix default_gzip w destination path pipeline call)
  unfolding stream_through
  stream_through-Ends w source destination path pipeline none h = record {
    complete = inl refl;
    checked = tt;
  }
  stream_through-Ends w source destination path pipeline (some (err x)) h = record {
    complete = inr nothing;
    checked = tt;
  }
  stream_through-Ends w source destination path pipeline (some (ok opening)) h =
      go (w.open_source opening)
    where
      written_call : Run BackendCall
      written_call =
          dispatch P fuel S suffix default_gzip destination
            (Operation.write_stream path pipeline true)

      go :
          (r : Result Error (Unit {0}))
          → Ends source destination (elim r [
            | err x ↦ record { actions = []; result = some (err x) }
            | ok u ↦ write_from P fuel S suffix default_gzip w opening (
                dispatch P fuel S suffix default_gzip destination
                  (Operation.write_stream path pipeline true))
          ])
      go (ok u) =
          write_from-Ends w source destination opening _ h.given
            (dispatch-Safe P fuel S suffix default_gzip destination _)
      go (err x) = record { complete = inr nothing; checked = tt }

  either-Ends :
      (source destination : Facade) (b : Bool) {o o' : Outcome P fuel S suffix default_gzip}
      → Ends source destination o
      → Ends source destination o'
      → Ends source destination (if b then o else o')
  either-Ends source destination true h h' = h
  either-Ends source destination false h h' = h'

  -- Whatever the facades, the pipelines and the outcomes of the backends' calls: a copy that ends has
  -- done nothing, or one native copy, or has opened the source, written at most once, and closed the
  -- source; and every path given to a backend was checked by that backend's own facade.
  pub copy_between-Ends :
      (w : World) (source destination : Facade) (source_path destination_path : Text)
      (p q : Option (Pipeline S))
      → Ends source destination (
          copy_between P fuel S suffix default_gzip w source destination source_path
            destination_path p q)
  unfolding copy_between
  copy_between-Ends w source destination source_path destination_path p q =
      let refused : Ends source destination
          (record { actions = []; result = some (err storage_connection) }) =
        record { complete = inr nothing; checked = tt } in
      either-Ends source destination source.closed refused (
        either-Ends source destination destination.closed refused (
          either-Ends source destination
            (is_none P fuel S suffix default_gzip p
              && (is_none P fuel S suffix default_gzip q
                  && (w.same_backend
                      && (w.same_policy && (w.same_profile && source.supports copies)))))
            (native-Ends w source destination _
              (dispatch-Safe P fuel S suffix default_gzip source _))
            (stream_through-Ends w source destination destination_path q _
              (dispatch-Safe P fuel S suffix default_gzip source _))))
