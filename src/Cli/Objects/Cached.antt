-- ===== src/Cli/Objects/Cached.antt =====
-- The cache of existing objects under `objectExists` and the loops that note changes in it.
use deska.Base.{
  Bool, true, false, not, ◌&&◌, Option, none, some, List, if◌then◌else◌, ◌≡◌, refl, sym, ap, ◌∙◌,
  subst, Ordering,
}
use deska.Base.Text.{Text, is_empty, is_eq}
use deska.Base.Dict.{Dict, find, insert, find-insert}
use deska.Db.Exec.{Result, ok, fail, pure-eq-ok}
use deska.Cli.Diff.Converters.{ObjectDefinition}
use deska.Cli.Session.Interface.{
  Fault, changeset_range_error, changeset_locking_error, server_error, constraint_error,
  obsolete_parent_error, remote_db_error, not_found_error, json_parse_error, json_connection_error,
  re_create_object_error, already_exists_error, mass_creating_embedded_error, other_error,
}
use deska.Cli.Session.Triples.{Triple}
use deska.Cli.Objects.Key.{object_compare, object_compare_eq, object_ord}
use deska.Cli.Objects.State.{ObjectsApi, State, call, store, note}
use deska.Cli.Objects.Exists.{exists_answer, ask_exists, cached, object_exists}
use deska.Cli.Objects.Laws.{Existing, same_object, update, Fits, ExistenceLaws, Pending}

pub Fits-insert :
    (o x : ObjectDefinition) (b : Bool) (m : Dict ObjectDefinition Bool) (e w : Bool)
    → Fits (find x m) e w
    → Fits (find x (insert o b m)) e (if same_object x o then b else w)
unfolding same_object
Fits-insert o x b m e w h = rw (find-insert x o b m) (by_test (is_eq (object_compare x o)) h)
  where
    by_test :
        (c : Bool)
        → Fits (find x m) e w
        → Fits (if c then some b else find x m) e (if c then b else w)
    by_test true h = unfold Fits in refl
    by_test false h = h

pub is_eq_lem : (c : Ordering) → is_eq c ≡ true → c ≡ Ordering.eq
is_eq_lem Ordering.eq h = refl
is_eq_lem Ordering.lt h = cc
is_eq_lem Ordering.gt h = cc

-- An object that is the same has the same answer.
pub update_known :
    (o x : ObjectDefinition) (b : Bool) (w : Existing)
    → w o ≡ b
    → (if same_object x o then b else w x) ≡ w x
unfolding same_object
update_known o x b w h = by_test (is_eq (object_compare x o)) refl
  where
    by_test : (c : Bool) → is_eq (object_compare x o) ≡ c → (if c then b else w x) ≡ w x
    by_test true q = sym h ∙ ap w (sym (object_compare_eq x o (is_eq_lem (object_compare x o) q)))
    by_test false q = refl

module _ {V : Type 0} (api : ObjectsApi V) (laws : ExistenceLaws api) where
  abbrev pub P : Existing → Existing → State api → Type 0
  P = Pending api laws

  pub note_lem :
      (o : ObjectDefinition) (b : Bool) (e w : Existing)
      → Triple (P e w) (note api o b) (λ u. P e (update o b w))
  unfolding note update
  note_lem o b e w s u t p h =
      stored (pure-eq-ok tt (if s.stable_view then store api o b s else s) h).1
    where
      stored : (if s.stable_view then store api o b s else s) ≡ t → P e (update o b w) t
      stored q = subst (P e (update o b w)) q (
          rw (p.stable) (record {
            stable = refl;
            truth = p.truth;
            fits = λ x. Fits-insert o x b s.object_exists_cache (e x) (w x) (p.fits x);
          }))

  -- What `objectExists` answers for.
  abbrev pub Answered : ObjectDefinition → Existing → Existing → Bool → State api → Type 0
  Answered o e w a s = (a ≡ (not (is_empty o.name) && w o)) × P e w s

  -- after a call that leaves the existing objects
  pub Pending-called :
      (e w : Existing) (s : State api) (v : api.Server)
      → P e w s
      → ((x : ObjectDefinition) → laws.exists v x ≡ laws.exists s.server x)
      → P e w (record s { server = v })
  Pending-called e w s v p k = record {
    stable = p.stable;
    truth = λ x. k x ∙ p.truth x;
    fits = p.fits;
  }

  -- an answer that is already what the cache is to say
  pub Pending-stored :
      (o : ObjectDefinition) (b : Bool) (e w : Existing) (s : State api)
      → P e w s
      → w o ≡ b
      → P e w (store api o b s)
  Pending-stored o b e w s p h = record {
    stable = p.stable;
    truth = p.truth;
    fits = λ x.
        subst (λ c. Fits (find x (insert o b s.object_exists_cache)) (e x) c)
          (update_known o x b w h) (Fits-insert o x b s.object_exists_cache (e x) (w x) (p.fits x));
  }

  answer_lem :
      (o : ObjectDefinition) (e w : Existing) (s : State api)
      (r : Result Fault (List (Text × Option V))) (a : Bool) (t : State api)
      → P e w s
      → ((d : List (Text × Option V)) → r ≡ ok d → w o ≡ true)
      → (r ≡ fail not_found_error → w o ≡ false)
      → exists_answer api o r s ≡ (ok a, t)
      → (a ≡ w o) × P e w t
  answer_lem o e w s (ok d) a t p ht hf h =
      let (same, kept) = pure-eq-ok true (store api o true s) h in
      (same ∙ sym (ht d refl), subst (P e w) kept (Pending-stored o true e w s p (ht d refl)))
  answer_lem o e w s (fail not_found_error) a t p ht hf h =
      let (same, kept) = pure-eq-ok false (store api o false s) h in
      (same ∙ sym (hf refl), subst (P e w) kept (Pending-stored o false e w s p (hf refl)))
  answer_lem o e w s (fail changeset_range_error) a t p ht hf h = cc
  answer_lem o e w s (fail changeset_locking_error) a t p ht hf h = cc
  answer_lem o e w s (fail server_error) a t p ht hf h = cc
  answer_lem o e w s (fail constraint_error) a t p ht hf h = cc
  answer_lem o e w s (fail obsolete_parent_error) a t p ht hf h = cc
  answer_lem o e w s (fail remote_db_error) a t p ht hf h = cc
  answer_lem o e w s (fail json_parse_error) a t p ht hf h = cc
  answer_lem o e w s (fail re_create_object_error) a t p ht hf h = cc
  answer_lem o e w s (fail already_exists_error) a t p ht hf h = cc
  answer_lem o e w s (fail mass_creating_embedded_error) a t p ht hf h = cc
  answer_lem o e w s (fail json_connection_error) a t p ht hf h = cc
  answer_lem o e w s (fail other_error) a t p ht hf h = cc

  -- nothing is cached for `o`
  ask_lem :
      (o : ObjectDefinition) (e w : Existing) (s : State api) (a : Bool) (t : State api)
      → P e w s
      → e o ≡ w o
      → ask_exists api o s ≡ (ok a, t)
      → (a ≡ w o) × P e w t
  unfolding ask_exists
  ask_lem o e w s a t p h =
      answer_lem o e w (call api (api.object_data o.kind o.name) s).1
        (api.object_data o.kind o.name s.server).0 a t
        (Pending-called e w s (api.object_data o.kind o.name s.server).1 p
          (laws.data_keeps o.kind o.name s.server))
        (λ d q. sym h ∙ sym (p.truth o) ∙ laws.data_ok o.kind o.name s.server d q)
        (λ q. sym h ∙ sym (p.truth o) ∙ laws.data_missing o.kind o.name s.server q)

  looked_up :
      (o : ObjectDefinition) (e w : Existing) (s : State api) (c : Option Bool) (a : Bool)
      (t : State api)
      → P e w s
      → Fits c (e o) (w o)
      → (elim c [ none ↦ ask_exists api o s | some b ↦ (ok b, s) ]) ≡ (ok a, t)
      → (a ≡ w o) × P e w t
  unfolding Fits
  looked_up o e w s none a t p h q = ask_lem o e w s a t p h q
  looked_up o e w s (some b) a t p h q =
      let (same, kept) = pure-eq-ok b s q in (same ∙ h, subst (P e w) kept p)

  pub object_exists_lem :
      (o : ObjectDefinition) (e w : Existing)
      → Triple (P e w) (object_exists api o) (Answered o e w)
  unfolding object_exists cached
  object_exists_lem o e w s a t p h = by_name (is_empty o.name) h
    where
      by_name :
          (n : Bool)
          → (if n
              then (ok false, s)
              else elim (cached api o s) [ none ↦ ask_exists api o s | some b ↦ (ok b, s) ])
            ≡ (ok a, t)
          → (a ≡ (not n && w o)) × P e w t
      by_name true q = let (same, kept) = pure-eq-ok false s q in (same, subst (P e w) kept p)
      by_name false q =
          looked_up o e w s (find o s.object_exists_cache) a t p (p.fits o)
            (look s.stable_view p.stable q)
        where
          look :
              (v : Bool)
              → v ≡ true
              → (elim (if v then find o s.object_exists_cache else none) [
                | none ↦ ask_exists api o s
                | some b ↦ (ok b, s)
              ])
                ≡ (ok a, t)
              → (elim (find o s.object_exists_cache) [
                | none ↦ ask_exists api o s
                | some b ↦ (ok b, s)
              ])
                ≡ (ok a, t)
          look true v z = z
          look false v z = cc
