-- ===== src/Storage/Transfer.antt =====
-- storage/facade/cross_backend.py: a copy from one facade to another.
pub mod Closed
use mountainash_transport.Prelude.{
  ℕ, Bool, true, false, ◌&&◌, Option, none, some, List, [], ◌∷◌, ◌++◌, Text, Result, ok, err,
  if◌then◌else◌,
}
use mountainash_transport.Errors.{Error, storage_connection}
use mountainash_transport.Location.Schemes.{Platform}
use mountainash_transport.Transform.Pipeline.{StreamTransform, Pipeline}
use mountainash_transport.Storage.Facade.{
  Facade, copies, BackendCall, Run, Operation, ReadArgs, sequential, dispatch,
}

-- What happens, in order: a native copy, the source's opening, the write, and the close of the source.
pub data Action : Type 0 where
  copied : BackendCall → Action
  opened : BackendCall → Action
  written : BackendCall → Action
  closed : Action

-- What the two facades have in common, and what the calls come to: the backends' own outcomes, and
-- what the stream's `close` raises.
pub record World : Type 0 where
  -- isinstance(source._backend, type(destination._backend)), `==` of the policies, and `is` of the profiles.
  pub same_backend : Bool
  pub same_policy : Bool
  pub same_profile : Bool
  pub perform : BackendCall → Result Error (Unit {0})
  pub open_source : BackendCall → Result Error (Unit {0})
  pub close : Result Error (Unit {0})

module _ (P : Platform) (fuel : ℕ) (S : Type 0) (suffix : Text → Text)
    (default_gzip : StreamTransform S) where
  -- The actions, and how the copy ends; `none` is fuel run out.
  pub record Outcome : Type 0 where
    pub actions : List Action
    pub result : Run (Unit {0})

  -- The `finally`: the close, whose exception goes before the write's.
  close_after : World → List Action → Run (Unit {0}) → Outcome
  close_after w actions result = record {
    actions = actions ++ closed ∷ [];
    result = elim w.close [ ok u ↦ result | err x ↦ some (err x) ];
  }

  write_from : World → BackendCall → Run BackendCall → Outcome
  unfolding close_after
  write_from w source none = record { actions = opened source ∷ []; result = none }
  write_from w source (some (err x)) = close_after w (opened source ∷ []) (some (err x))
  write_from w source (some (ok call)) =
      close_after w (opened source ∷ written call ∷ []) (some (w.perform call))

  stream_through : World → Facade → Text → Option (Pipeline S) → Run BackendCall → Outcome
  unfolding write_from
  stream_through w destination path pipeline none = record { actions = []; result = none }
  stream_through w destination path pipeline (some (err x)) = record {
    actions = [];
    result = some (err x);
  }
  stream_through w destination path pipeline (some (ok source)) = elim (w.open_source source) [
    | err x ↦ record { actions = []; result = some (err x) }
    | ok u ↦ write_from w source (
        dispatch P fuel S suffix default_gzip destination
          (Operation.write_stream path pipeline true))
  ]

  native : World → Run BackendCall → Outcome
  native w none = record { actions = []; result = none }
  native w (some (err x)) = record { actions = []; result = some (err x) }
  native w (some (ok call)) = record { actions = copied call ∷ []; result = some (w.perform call) }

  is_none : Option (Pipeline S) → Bool
  is_none none = true
  is_none (some p) = false

  abbrev reading : Text → Option (Pipeline S) → ReadArgs P fuel S
  reading path pipeline = record {
    path = path;
    pipeline = pipeline;
    infer = false;
    gpg = none;
    gzip = none;
    access = sequential;
    range_policy = false;
  }

  -- `copy_between`
  unfoldable pub copy_between :
      World → Facade → Facade → Text → Text → Option (Pipeline S) → Option (Pipeline S) → Outcome
  unfolding native stream_through is_none
  copy_between w source destination source_path destination_path source_pipeline
        destination_pipeline =
      if source.closed
      then record { actions = []; result = some (err storage_connection) }
      else if destination.closed
      then record { actions = []; result = some (err storage_connection) }
      else if is_none source_pipeline
          && (is_none destination_pipeline
              && (w.same_backend && (w.same_policy && (w.same_profile && source.supports copies))))
      then native w (
          dispatch P fuel S suffix default_gzip source
            (Operation.copy source_path destination_path))
      else stream_through w destination destination_path destination_pipeline (
          dispatch P fuel S suffix default_gzip source
            (Operation.read_stream (reading source_path source_pipeline)))
