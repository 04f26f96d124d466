-- ===== src/Cli/Objects/Laws.antt =====
-- The objects that exist: what the calls of `Db::Api` do to them, and what the cache says of them.
use deska.Base.{
  Bool, true, false, not, ◌&&◌, ◌||◌, Option, none, some, List, [], ◌∷◌, if◌then◌else◌, ◌≡◌,
}
use deska.Base.Text.{Text, is_empty, is_eq}
use deska.Base.Dict.{find}
use deska.Db.Command.{
  ObjectModificationCommand, lacks_local, create_object, delete_object, rename_object,
  set_attribute, set_attribute_insert, set_attribute_remove,
}
use deska.Db.Exec.{ok, fail}
use deska.Db.Filter.{Filter}
use deska.Cli.Diff.Converters.{ObjectDefinition}
use deska.Cli.Session.Interface.{not_found_error}
use deska.Cli.Objects.Key.{object_compare, object_ord}
use deska.Cli.Objects.State.{ObjectsApi, State}

abbrev pub Existing : Type 0
Existing = ObjectDefinition → Bool

unfoldable pub same_object : ObjectDefinition → ObjectDefinition → Bool
same_object a b = is_eq (object_compare a b)

unfoldable pub update : ObjectDefinition → Bool → Existing → Existing
unfolding same_object
update o b w x = if same_object x o then b else w x

unfoldable pub listed : List ObjectDefinition → ObjectDefinition → Bool
unfolding same_object
listed [] x = false
listed (o ∷ os) x = same_object x o || listed os x

-- The existence after every listed object that exists, or does not, has been changed; an object
-- without a name is never taken to exist.
unfoldable pub marked : Bool → List ObjectDefinition → Existing → Existing
unfolding listed
marked wanted os w x =
    if listed os x && (not wanted || not (is_empty x.name)) then not wanted else w x

module _ {V : Type 0} where
  unfoldable pub effect : ObjectModificationCommand V → Existing → Existing
  unfolding update
  effect (create_object k n) w = update (record { kind = k; name = n }) true w
  effect (delete_object k n) w = update (record { kind = k; name = n }) false w
  effect (rename_object k old new) w = w
  effect (set_attribute k n a v) w = w
  effect (set_attribute_insert k n a i) w = w
  effect (set_attribute_remove k n a i) w = w

  abbrev pub effects : List (ObjectModificationCommand V) → Existing → Existing
  effects [] w = w
  effects (c ∷ cs) w = effects cs (effect c w)

  -- commands whose effect does not follow from them alone: a rename, and a creation for which the
  -- server has to assign the local name
  abbrev pub is_open : ObjectModificationCommand V → Bool
  is_open (rename_object k old new) = true
  is_open (create_object k n) = lacks_local n
  is_open _ = false

  abbrev pub has_open : List (ObjectModificationCommand V) → Bool
  has_open [] = false
  has_open (c ∷ cs) = is_open c || has_open cs

-- the objects of a kind with the given names
abbrev pub of_names : Text → List Text → List ObjectDefinition
of_names k [] = []
of_names k (n ∷ ns) = record { kind = k; name = n } ∷ of_names k ns

-- What the calls answer of the existing objects of the view, and how they change them. Of a batch
-- that renames objects, or creates one under a name without its local part, nothing is said.
pub record ExistenceLaws {V : Type 0} (api : ObjectsApi V) : Type 0 where
  pub exists : api.Server → Existing
  pub data_keeps :
      (k n : Text) (s : api.Server) (x : ObjectDefinition)
      → exists (api.object_data k n s).1 x ≡ exists s x
  pub data_ok :
      (k n : Text) (s : api.Server) (d : List (Text × Option V))
      → (api.object_data k n s).0 ≡ ok d
      → exists s (record { kind = k; name = n }) ≡ true
  pub data_missing :
      (k n : Text) (s : api.Server)
      → (api.object_data k n s).0 ≡ fail not_found_error
      → exists s (record { kind = k; name = n }) ≡ false
  pub instances_keeps :
      (k : Text) (f : Option (Filter V)) (s : api.Server) (x : ObjectDefinition)
      → exists (api.kind_instances k f s).1 x ≡ exists s x
  pub instances_exist :
      (k : Text) (f : Option (Filter V)) (s : api.Server) (ns : List Text) (t : api.Server)
      → api.kind_instances k f s ≡ (ok ns, t)
      → (x : ObjectDefinition) → listed (of_names k ns) x ≡ true
      → exists s x ≡ true
  pub create_ok :
      (k n : Text) (s : api.Server) (m : Text) (t : api.Server)
      → api.create_object k n s ≡ (ok m, t)
      → (x : ObjectDefinition)
      → exists t x ≡ update (record { kind = k; name = m }) true (exists s) x
  pub restore_ok :
      (k n : Text) (s : api.Server) (u : Unit {0}) (t : api.Server)
      → api.restore_deleted_object k n s ≡ (ok u, t)
      → (x : ObjectDefinition)
      → exists t x ≡ update (record { kind = k; name = n }) true (exists s) x
  pub apply_ok :
      (cs : List (ObjectModificationCommand V)) (s : api.Server) (u : Unit {0}) (t : api.Server)
      → has_open cs ≡ false
      → api.apply_batched_changes cs s ≡ (ok u, t)
      → (x : ObjectDefinition) → exists t x ≡ effects cs (exists s) x

-- What a cached answer says, `e` being so and `w` being what it is to say.
unfoldable pub Fits : Option Bool → Bool → Bool → Type 0
Fits none e w = e ≡ w
Fits (some c) e w = c ≡ w

module _ {V : Type 0} (api : ObjectsApi V) (laws : ExistenceLaws api) where
  -- In a stable view where the objects of `e` exist, the cache answers for `w`.
  pub record Pending (e w : Existing) (s : State api) : Type 0 where
    pub stable : s.stable_view ≡ true
    pub truth : (x : ObjectDefinition) → laws.exists s.server x ≡ e x
    pub fits : (x : ObjectDefinition) → Fits (find x s.object_exists_cache) (e x) (w x)

  -- No cached answer is wrong while it is looked at.
  unfoldable pub Coherent : State api → Type 0
  unfolding Fits
  Coherent s =
      s.stable_view ≡ true
      → (x : ObjectDefinition)
      → Fits (find x s.object_exists_cache) (laws.exists s.server x) (laws.exists s.server x)
