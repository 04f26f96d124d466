-- ===== src/Cli/Objects/Example.antt =====
-- A server that holds the set of its objects, and refuses to delete the ones named `locked`.
use deska.Base.{
  All, some, subst, Bool, true, false, ◌||◌, Option, List, [], ◌∷◌, if◌then◌else◌, ◌≡◌, refl, sym,
  ap, ◌∙◌,
}
use deska.Base.Text.{Text, codes, text_eq, text_compare, is_eq}
use deska.Db.Command.{ObjectModificationCommand, delete_object}
use deska.Db.Exec.{Exec, Result, ok, fail}
use deska.Cli.Diff.Converters.{ObjectDefinition}
use deska.Cli.Session.Interface.{Fault, server_error, not_found_error}
use deska.Db.Filter.{Filter}
use deska.Cli.Relations.{has}
use deska.Cli.Objects.Key.{object_compare, object_compare_eq, object_ord}
use deska.Cli.Objects.State.{ObjectsApi}
use deska.Cli.Objects.Cached.{is_eq_lem}
use deska.Cli.Objects.Laws.{Existing, update, listed, effects, of_names, ExistenceLaws}

abbrev pub object : Text → Text → ObjectDefinition
object k n = record { kind = k; name = n }

abbrev refuses : List (ObjectModificationCommand Text) → Bool
refuses [] = false
refuses (delete_object k n ∷ cs) = text_eq n (codes "locked") || refuses cs
refuses (_ ∷ cs) = refuses cs

-- those of the names that an object of the kind has
abbrev present : Existing → Text → List Text → List Text
present e k [] = []
present e k (n ∷ ns) = if e (object k n) then n ∷ present e k ns else present e k ns

abbrev noop : Exec Existing Fault (Unit {0})
noop s = (ok tt, s)

abbrev pub api : ObjectsApi Text
api = record {
  Server = Existing;
  kind_instances = λ k f s. (ok (present s k (codes "a" ∷ codes "b" ∷ codes "locked" ∷ [])), s);
  object_data = λ k n s. ((if s (object k n) then ok [] else fail not_found_error), s);
  create_object = λ k n s. (ok n, update (object k n) true s);
  restore_deleted_object = λ k n s. (ok tt, update (object k n) true s);
  apply_batched_changes =
      λ cs s. if refuses cs then (fail server_error, s) else (ok tt, effects cs s);
  start_changeset = λ s. (ok 1, s);
  resume_changeset = λ c. noop;
  commit_changeset = λ m s. (ok 1, s);
  detach_from_current_changeset = λ m. noop;
  abort_current_changeset = noop;
  freeze_view = noop;
  unfreeze_view = noop;
}

pub data_true :
    (b : Bool) (d : List (Text × Option Text))
    → ◌≡◌ {A = Result Fault (List (Text × Option Text))}
        (if b then ok [] else fail not_found_error)
        (ok d)
    → b ≡ true
data_true true d h = refl
data_true false d h = cc

pub data_false :
    (b : Bool)
    → ◌≡◌ {A = Result Fault (List (Text × Option Text))}
        (if b then ok [] else fail not_found_error)
        (fail not_found_error)
    → b ≡ false
data_false true h = cc
data_false false h = refl

pub applied :
    (b : Bool) (s f : Existing) (u : Unit {0}) (t : Existing)
    → ◌≡◌ {A = Result Fault (Unit {0}) × Existing}
        (if b then (fail server_error, s) else (ok tt, f))
        (ok u, t)
    → t ≡ f
applied true s f u t h = cc
applied false s f u t h = ap (λ z. z.1) (sym h)

pub present-listed :
    (e : Existing) (k : Text) (ns : List Text) (x : ObjectDefinition)
    → listed (of_names k (present e k ns)) x ≡ true
    → e x ≡ true
unfolding listed
present-listed e k [] x h = cc
present-listed e k (n ∷ ns) x h = by_test (e (object k n)) refl (present-listed e k ns x) h
  where
    first :
        (c : Bool)
        → e (object k n) ≡ true
        → is_eq (object_compare x (object k n)) ≡ c
        → (listed (of_names k (present e k ns)) x ≡ true → e x ≡ true)
        → (c || listed (of_names k (present e k ns)) x) ≡ true
        → e x ≡ true
    first true p q rest m =
        ap e (object_compare_eq x (object k n) (is_eq_lem (object_compare x (object k n)) q)) ∙ p
    first false p q rest m = rest m

    by_test :
        (b : Bool)
        → e (object k n) ≡ b
        → (listed (of_names k (present e k ns)) x ≡ true → e x ≡ true)
        → listed (of_names k (if b then n ∷ present e k ns else present e k ns)) x ≡ true
        → e x ≡ true
    by_test true p rest m = first (is_eq (object_compare x (object k n))) p refl rest m
    by_test false p rest m = rest m

abbrev pub laws : ExistenceLaws api
laws = record {
  exists = λ s. s;
  data_keeps = λ k n s x. refl;
  data_ok = λ k n s d h. data_true (s (object k n)) d h;
  data_missing = λ k n s h. data_false (s (object k n)) h;
  instances_keeps = λ k f s x. refl;
  instances_exist = λ k f s ns t h x m.
      present-listed s k (codes "a" ∷ codes "b" ∷ codes "locked" ∷ []) x (
        ap (λ l. listed (of_names k l) x)
          (ap (λ r. elim r [ ok l ↦ l | fail e ↦ ns ]) (ap (λ z. z.0) h))
        ∙ m);
  create_ok = λ k n s m t h x.
      ap (λ z. z.1 x) (sym h)
      ∙ ap (λ r. update (object k (elim r [ ok l ↦ l | fail e ↦ n ])) true s x) (ap (λ z. z.0) h);
  restore_ok = λ k n s u t h x. ap (λ z. z.1 x) (sym h);
  apply_ok = λ cs s u t r h x. ap (λ f. f x) (applied (refuses cs) s (effects cs s) u t h);
}

-- The server looks at no filter, but it names only these.
abbrev pub Known : Text → Filter Text → Text → Type 0
Known k f n = has (codes "a" ∷ codes "b" ∷ codes "locked" ∷ []) n ≡ true

present-Known :
    (k : Text) (f : Filter Text) (e : Existing) (ns : List Text)
    → All (Known k f) ns
    → All (Known k f) (present e k ns)
present-Known k f e [] h = tt
present-Known k f e (n ∷ ns) (h, hs) = by_test (e (object k n)) (present-Known k f e ns hs)
  where
    by_test :
        (b : Bool)
        → All (Known k f) (present e k ns)
        → All (Known k f) (if b then n ∷ present e k ns else present e k ns)
    by_test true r = (h, r)
    by_test false r = r

pub names-Known :
    (k : Text) (f : Filter Text) (s : api.Server) (ns : List Text) (t : api.Server)
    → api.kind_instances k (some f) s ≡ (ok ns, t)
    → All (Known k f) ns
unfolding text_compare
names-Known k f s ns t h =
    subst (All (Known k f)) (ap (λ z. elim z.0 [ ok l ↦ l | fail e ↦ ns ]) h)
      (present-Known k f s (codes "a" ∷ codes "b" ∷ codes "locked" ∷ []) (refl, (refl, (refl, tt))))
