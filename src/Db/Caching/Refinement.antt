-- ===== src/Db/Caching/Refinement.antt =====
-- Every call, and every sequence of calls, on the cache against the plain API.
use deska.Base.{false, All, none, some, List, [], ◌∷◌, ◌≡◌, refl, arith}
use deska.Base.Text.{Text}
use deska.Db.Command.{
  ends_in_arrow, ObjectModificationCommand, create_object, delete_object, rename_object,
  set_attribute, set_attribute_insert, set_attribute_remove,
}
use deska.Db.Exec.{Exec, Result, ok, >>=-eq-ok, pure-eq-ok}
use deska.Db.Caching.Api.{JsonApi, BatchLaws, send}
use deska.Db.Caching.State.{State, CommandBatchingMode}
use deska.Db.Caching.Commands.{
  cached_command, delete_object_cached, rename_object_cached, set_attribute_cached,
  set_attribute_insert_cached, set_attribute_remove_cached, set_command_batching,
  restore_deleted_object_cached, apply_batched_changes_cached,
}
use deska.Db.Caching.Direct.{
  Call, Reply, command, restore_deleted_object, apply_batched_changes, set_batching, run_direct,
  run_cached, run_all_direct, run_all_cached, no_reply,
}
use deska.Db.Caching.Refines.{
  Represents, cached_command-ok, cached_command-Represents, create_object_cached-ok,
  create_object_cached-Represents, restore_deleted_object_cached-ok,
  restore_deleted_object_cached-Represents, apply_batched_changes_cached-ok,
  apply_batched_changes_cached-Represents, set_command_batching-ok, set_command_batching-Represents,
}

-- A call without a reply that succeeds.
no_reply-ok :
    {S F : Type 0} (m : Exec S F (Unit {0})) (t : S) {r : Reply} {u : S}
    → no_reply m t ≡ (ok r, u)
    → (m t ≡ (ok tt, u)) × (r ≡ none)
no_reply-ok m t h = ground arith

-- No object is created whose name lacks just the local part.
abbrev pub NamesWhole : {V : Type 0} → Call V → Type 0
NamesWhole (command (create_object k n)) = ends_in_arrow n ≡ false
NamesWhole _ = Unit {0}

module _ {V : Type 0} (api : JsonApi V) (laws : BatchLaws api) where
  -- The outcome of a call on the cache: the reply `r`, and a state that stands for `u`.
  abbrev pub Reaches : Result api.Fault Reply × State api → Reply → api.Server → Type 0
  Reaches out r u = (out.0 ≡ ok r) × Represents api out.1 u

  -- a queued or immediate command
  queued-Reaches :
      (k n : Text) (c : ObjectModificationCommand V) (s : State api) (t u : api.Server) (r : Reply)
      → Represents api s t
      → no_reply (send api c) t ≡ (ok r, u)
      → Reaches (no_reply (cached_command api (send api c) k n c) s) r u
  queued-Reaches k n c s t u r h e =
      let (sent, none_r) = no_reply-ok (send api c) t e in
      let done = cached_command-ok api laws s t u k n c h sent in
      let kept = cached_command-Represents api laws s t u k n c h sent in
      rw done (rw none_r (refl, kept))

  -- another call without a reply, from what it does alone
  unit-Reaches :
      (m : Exec (State api) api.Fault (Unit {0})) (s : State api) (u : api.Server)
      → (m s).0 ≡ ok tt
      → Represents api (m s).1 u
      → Reaches (no_reply m s) none u
  unit-Reaches m s u done kept = rw done (refl, kept)

  name_reply-ok :
      (k n : Text) (t u : api.Server) (r : Reply)
      → run_direct api (command (create_object k n)) t ≡ (ok r, u)
      → (m : Text) × (api.create_object k n t ≡ (ok m, u)) × (r ≡ some m)
  unfolding run_direct
  name_reply-ok k n t u r h = ground arith

  create-Reaches :
      (k n : Text) (s : State api) (t u : api.Server) (r : Reply)
      → ends_in_arrow n ≡ false
      → Represents api s t
      → run_direct api (command (create_object k n)) t ≡ (ok r, u)
      → Reaches (run_cached api (command (create_object k n)) s) r u
  unfolding run_cached
  create-Reaches k n s t u r g h e =
      let (m, made, some_r) = name_reply-ok k n t u r e in
      let done = create_object_cached-ok api laws s t u k n m h made g in
      rw done (rw some_r (refl, create_object_cached-Represents api laws s t u k n m h made))

  set_batching-ok :
      (mode : CommandBatchingMode) (t u : api.Server) (r : Reply)
      → run_direct api (set_batching mode) t ≡ (ok r, u)
      → (r ≡ none) × (u ≡ t)
  unfolding run_direct
  set_batching-ok mode t u r h = ground arith

  -- Whatever the plain API answers, the cache answers.
  pub run_cached-Reaches :
      (c : Call V) (s : State api) (t u : api.Server) (r : Reply)
      → NamesWhole c
      → Represents api s t
      → run_direct api c t ≡ (ok r, u)
      → Reaches (run_cached api c s) r u
  run_cached-Reaches (command (create_object k n)) s t u r g h e = create-Reaches k n s t u r g h e
  run_cached-Reaches (command (delete_object k n)) s t u r g h e =
      unfold run_cached run_direct delete_object_cached send in
      queued-Reaches k n (delete_object k n) s t u r h e
  run_cached-Reaches (command (rename_object k old new)) s t u r g h e =
      unfold run_cached run_direct rename_object_cached send in
      queued-Reaches k old (rename_object k old new) s t u r h e
  run_cached-Reaches (command (set_attribute k n a v)) s t u r g h e =
      unfold run_cached run_direct set_attribute_cached send in
      queued-Reaches k n (set_attribute k n a v) s t u r h e
  run_cached-Reaches (command (set_attribute_insert k n a i)) s t u r g h e =
      unfold run_cached run_direct set_attribute_insert_cached send in
      queued-Reaches k n (set_attribute_insert k n a i) s t u r h e
  run_cached-Reaches (command (set_attribute_remove k n a i)) s t u r g h e =
      unfold run_cached run_direct set_attribute_remove_cached send in
      queued-Reaches k n (set_attribute_remove k n a i) s t u r h e
  run_cached-Reaches (restore_deleted_object k n) s t u r g h e =
      unfold run_cached run_direct in
      let (sent, none_r) = no_reply-ok (api.restore_deleted_object k n) t e in
      rw none_r (
        unit-Reaches (restore_deleted_object_cached api k n) s u
          (restore_deleted_object_cached-ok api laws s t u k n h sent)
          (restore_deleted_object_cached-Represents api laws s t u k n h sent))
  run_cached-Reaches (apply_batched_changes cs) s t u r g h e =
      unfold run_cached run_direct in
      let (sent, none_r) = no_reply-ok (api.apply_batched_changes cs) t e in
      rw none_r (
        unit-Reaches (apply_batched_changes_cached api cs) s u
          (apply_batched_changes_cached-ok api laws s t u cs h sent)
          (apply_batched_changes_cached-Represents api laws s t u cs h sent))
  run_cached-Reaches (set_batching mode) s t u r g h e =
      let (none_r, same) = set_batching-ok mode t u r e in
      unfold run_cached in
      rw none_r (
        rw same (
          unit-Reaches (set_command_batching api mode) s t
            (set_command_batching-ok api laws s t mode h)
            (set_command_batching-Represents api laws s t mode h)))

  all_direct-ok :
      (c : Call V) (cs : List (Call V)) (t u : api.Server) (rs : List Reply)
      → run_all_direct api (c ∷ cs) t ≡ (ok rs, u)
      → (r : Reply) × (rest : List Reply) × (v : api.Server) × (run_direct api c t ≡ (ok r, v))
        × (run_all_direct api cs v ≡ (ok rest, u))
        × (rs ≡ r ∷ rest)
  unfolding run_all_direct
  all_direct-ok c cs t u rs h =
      let (r, v, first, rest_ok) = >>=-eq-ok (run_direct api c) _ t h in
      let (rest, w, others, last) = >>=-eq-ok (run_all_direct api cs) _ v rest_ok in
      let (whole, same) = pure-eq-ok (r ∷ rest) w last in
      (r, rest, v, first, rw (← same) others, whole)

  nil_direct-ok :
      (t u : api.Server) (rs : List Reply)
      → run_all_direct api [] t ≡ (ok rs, u)
      → (rs ≡ []) × (t ≡ u)
  unfolding run_all_direct
  nil_direct-ok t u rs h = pure-eq-ok [] t h

  -- the outcome of a sequence of calls on the cache
  abbrev AllReach : Result api.Fault (List Reply) × State api → List Reply → api.Server → Type 0
  AllReach out rs u = (out.0 ≡ ok rs) × Represents api out.1 u

  nil-AllReach :
      (s : State api) (t : api.Server)
      → Represents api s t
      → AllReach (run_all_cached api [] s) [] t
  unfolding run_all_cached
  nil-AllReach s t h = (refl, h)

  cons-AllReach :
      (c : Call V) (cs : List (Call V)) (s : State api) (r : Reply) (rest : List Reply)
      (u : api.Server)
      → (run_cached api c s).0 ≡ ok r
      → AllReach (run_all_cached api cs (run_cached api c s).1) rest u
      → AllReach (run_all_cached api (c ∷ cs) s) (r ∷ rest) u
  unfolding run_all_cached
  cons-AllReach c cs s r rest u first (later, kept) = rw first (rw later (refl, kept))

  pub run_all_cached-Represents :
      (cs : List (Call V)) (s : State api) (t u : api.Server) (rs : List Reply)
      → All NamesWhole cs
      → Represents api s t
      → run_all_direct api cs t ≡ (ok rs, u)
      → AllReach (run_all_cached api cs s) rs u
  run_all_cached-Represents [] s t u rs g h e =
      let (none_left, same) = nil_direct-ok t u rs e in
      rw none_left (rw (← same) (nil-AllReach s t h))
  run_all_cached-Represents (c ∷ cs) s t u rs (g, gs) h e =
      let (r, rest, v, first, others, whole) = all_direct-ok c cs t u rs e in
      let now = run_cached-Reaches c s t v r g h first in
      let later = run_all_cached-Represents cs (run_cached api c s).1 v u rest gs now.1 others in
      rw whole (cons-AllReach c cs s r rest u now.0 later)
