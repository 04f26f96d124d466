-- ===== src/Cli/Ui/Confirm.antt =====
-- The confirmation of the signals of the parser.
use deska.Base.{Bool, true, ◌||◌, Option, none, some, List, [], ◌∷◌, ◌++◌, back, if◌then◌else◌}
use deska.Base.Text.{Text, codes, text_eq}
use deska.Db.Exec.{ok, ◌>>=◌, pure}
use deska.Cli.Diff.Converters.{ObjectDefinition}
use deska.Cli.Path.Context.{context_stack_to_path}
use deska.Cli.Session.Rebase.{or_throw}
use deska.Cli.Objects.State.{ObjectsApi, Method}
use deska.Cli.Objects.Context.{object_exists_in}
use deska.Cli.Objects.Modify.{with_last_kind}
use deska.Cli.Signals.Interface.{Item, ContextStack}
use deska.Cli.Ui.State.{UserInterfaceIo, Call, on_interaction, refuse, attached, is_non_interactive}

-- `connected` is connectedObjectsTransitively, whose none is the ContextStackConversionError.
module _ {V : Type 0} (api : ObjectsApi V) (text : Text → V) (io : UserInterfaceIo)
    (connected : ContextStack V → Method api (Option (List ObjectDefinition))) where
  abbrev object : Text → Text → ObjectDefinition
  object k n = record { kind = k; name = n }

  abbrev exists_in : ContextStack V → Text → Call api Bool
  exists_in c old = on_interaction api (object_exists_in api text c old)

  abbrev pub no_changeset : Text → Text
  no_changeset what =
      codes "Error: You have to be connected to a changeset to "
      ++ (what ++ codes ". Use commands \"start\" or \"resume\". Use \"help\" for more info.")

  -- what is done where there is a current changeset
  unfoldable pub with_changeset : Text → Call api Bool → Call api Bool
  with_changeset what m u = if attached api u then m u else refuse api (no_changeset what) u

  unfoldable pub confirm_create_object : ContextStack V → Text → Text → Call api Bool
  unfolding with_changeset
  confirm_create_object c k n = with_changeset (codes "create an object") (pure true)

  -- `autoCreate` is what the user answers.
  abbrev creation_asked : Text → Text → Option (List ObjectDefinition) → Bool
  creation_asked k n none = io.confirm_creation_connected (object k n)
  creation_asked k n (some []) = io.confirm_creation (object k n)
  creation_asked k n (some (o ∷ os)) = io.confirm_creation_connection (object k n) (o ∷ os)

  abbrev same_answer : Bool → Bool × Bool
  same_answer b = (b, b)

  unfoldable pub ask_creation : ContextStack V → Text → Text → Bool → Call api (Bool × Bool)
  unfolding object_exists_in
  ask_creation c k n auto u =
      if is_non_interactive api u
      then (ok (true, auto), u)
      else (exists_in c [] >>= λ found.
            (if found
              then pure (true, auto)
              else on_interaction api (connected c) >>= λ os.
                  pure (same_answer (creation_asked k n os))))
          u

  unfoldable pub confirm_category_entered :
      ContextStack V → Text → Text → Bool → Call api (Bool × Bool)
  unfolding ask_creation
  confirm_category_entered c k n auto u =
      if attached api u
      then ask_creation c k n auto u
      else (exists_in c [] >>= λ found.
            (if found
              then ask_creation c k n auto
              else refuse api (no_changeset (codes "create an object")) >>= λ b. pure (b, auto)))
          u

  -- The question for the contained object of the last item.
  abbrev connection_asked : Text → Item V → Option Text → Option (List ObjectDefinition) → Bool
  connection_asked k last none os = io.confirm_creation_connected (object k last.name)
  connection_asked k last (some path) none = io.confirm_creation_connected (object k last.name)
  connection_asked k last (some path) (some []) =
      io.confirm_creation_connection (object k last.name) (object last.kind path ∷ [])
  connection_asked k last (some path) (some (o ∷ os)) =
      io.confirm_creation_connection (object k last.name) (o ∷ os)

  -- The connected objects are looked for when the context has a path.
  abbrev connected_of : Option Text → ContextStack V → Call api (Option (List ObjectDefinition))
  connected_of none c = pure none
  connected_of (some path) c = on_interaction api (connected c)

  unfoldable pub ask_connection : ContextStack V → Text → Item V → Call api Bool
  unfolding context_stack_to_path
  ask_connection c k last =
      connected_of (context_stack_to_path c) (with_last_kind api text k c) >>= λ os.
      pure (connection_asked k last (context_stack_to_path c) os)

  -- The kind of an attribute is that of the last item, or that of an object it contains.
  unfoldable pub contained_confirmed : ContextStack V → Text → Call api Bool
  unfolding ask_connection object_exists_in
  contained_confirmed c k = or_throw (back c) >>= λ last. λ u.
      (if text_eq last.kind k || is_non_interactive api u
        then (ok true, u)
        else (exists_in (with_last_kind api text k c) last.kind >>= λ found.
              (if found then pure true else ask_connection c k last))
            u)

  unfoldable pub confirm_set_attribute : ContextStack V → Text → Text → Option V → Call api Bool
  unfolding with_changeset contained_confirmed
  confirm_set_attribute c k a v = with_changeset (codes "set an attribue") (contained_confirmed c k)

  unfoldable pub confirm_set_attribute_insert : ContextStack V → Text → Text → Text → Call api Bool
  unfolding with_changeset contained_confirmed
  confirm_set_attribute_insert c k a v =
      with_changeset (codes "insert an identifier to a set") (contained_confirmed c k)

  -- what is said of a contained object that is missing
  abbrev missing : Option Text → Text → Text → Text
  missing (some path) one many = codes "Object " ++ (path ++ one)
  missing none one many = many

  unfoldable pub contained_present : ContextStack V → Text → Text → Text → Call api Bool
  unfolding object_exists_in context_stack_to_path
  contained_present c k one many = or_throw (back c) >>= λ last.
      (if text_eq last.kind k
        then pure true
        else exists_in (with_last_kind api text k c) last.kind >>= λ found.
            (if found
              then pure true
              else refuse api
                  (missing (context_stack_to_path (with_last_kind api text k c)) one many)))

  unfoldable pub confirm_set_attribute_remove : ContextStack V → Text → Text → Text → Call api Bool
  unfolding with_changeset contained_present
  confirm_set_attribute_remove c k a v = with_changeset (codes "remove an identifier from a set") (
      contained_present c k
        (codes " does not exist, so you can not remove identifiers from its sets.")
        (codes
          "Not all connected objects exist, so you can not remove identifiers from their sets."))

  unfoldable pub confirm_remove_attribute : ContextStack V → Text → Text → Call api Bool
  unfolding with_changeset contained_present
  confirm_remove_attribute c k a = with_changeset (codes "remove an attribute") (
      contained_present c k (codes " does not exist, so you can not remove its attributes.")
        (codes "Not all connected objects exist, so you can not remove their attributes."))

  abbrev named_in : Item V → ObjectDefinition
  named_in i = object i.kind (elim i.filter [ none ↦ i.name | some f ↦ codes "from filter" ])

  unfoldable pub confirm_function_delete : ContextStack V → Call api Bool
  unfolding with_changeset
  confirm_function_delete c = with_changeset (codes "delete an object") (λ u.
      (if is_non_interactive api u
        then (ok true, u)
        else (or_throw (back c) >>= λ last. pure (io.confirm_deletion (named_in last))) u))

  unfoldable pub confirm_function_rename : ContextStack V → Text → Call api Bool
  unfolding with_changeset
  confirm_function_rename c n = with_changeset (codes "rename an object") (pure true)
