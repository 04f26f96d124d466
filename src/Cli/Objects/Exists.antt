-- ===== src/Cli/Objects/Exists.antt =====
-- `objectExists` and the lists of objects that fill the cache.
use deska.Base.{Bool, true, false, Option, none, some, List, [], ◌∷◌, if◌then◌else◌}
use deska.Base.Text.{Text, is_empty}
use deska.Base.Dict.{find}
use deska.Db.Exec.{Result, ok, fail, ◌>>=◌, ◌>>◌, pure}
use deska.Db.Filter.{Filter}
use deska.Cli.Diff.Converters.{ObjectDefinition}
use deska.Cli.Session.Interface.{Fault, not_found_error}
use deska.Cli.Objects.Key.{object_ord}
use deska.Cli.Objects.State.{ObjectsApi, State, Method, call, store, note}

module _ {V : Type 0} (api : ObjectsApi V) where
  -- What the handler of the NotFoundError and the code before it make of the reply.
  abbrev pub exists_answer :
      {A : Type 0} → ObjectDefinition → Result Fault A → State api → Result Fault Bool × State api
  exists_answer o (ok d) s = (ok true, store api o true s)
  exists_answer o (fail not_found_error) s = (ok false, store api o false s)
  exists_answer o (fail e) s = (fail e, s)

  unfoldable pub ask_exists : ObjectDefinition → Method api Bool
  ask_exists o s =
      let reply = call api (api.object_data o.kind o.name) s in exists_answer o reply.0 reply.1

  unfoldable pub cached : ObjectDefinition → State api → Option Bool
  cached o s = if s.stable_view then find o s.object_exists_cache else none

  unfoldable pub object_exists : ObjectDefinition → Method api Bool
  unfolding ask_exists cached
  object_exists o s =
      if is_empty o.name
      then (ok false, s)
      else elim (cached o s) [ none ↦ ask_exists o s | some b ↦ (ok b, s) ]

  -- Objects of one kind that the server has named.
  unfoldable pub note_all : Text → List Text → Method api (List ObjectDefinition)
  unfolding note
  note_all k [] = pure []
  note_all k (n ∷ ns) = do
    let o : ObjectDefinition = record { kind = k; name = n }
    note api o true
    rest ← note_all k ns
    pure (o ∷ rest)

  -- `kindInstances` of the kind, with the loop that keeps the answer.
  unfoldable pub instances : Text → Option (Filter V) → Method api (List ObjectDefinition)
  unfolding note_all
  instances k f = call api (api.kind_instances k f) >>= note_all k

  -- `std::all` over objectExists, which stops at the first that is missing.
  unfoldable pub all_exist : List ObjectDefinition → Method api Bool
  unfolding object_exists
  all_exist [] = pure true
  all_exist (o ∷ os) =
      let rest = all_exist os in object_exists o >>= λ b. (if b then rest else pure false)
