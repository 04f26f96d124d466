-- ===== src/Cli/Objects/Transitive/Tests.antt =====
-- The interfaces embedded in a host.
use deska.Base.{
  ℕ, ◌<◌, Bool, true, false, some, List, [], ◌∷◌, All, if◌then◌else◌, ◌≡◌, refl, arith, subst,
  Option, none, ◌||◌,
}
use deska.Base.Text.{Text, codes, text_compare, text_eq, text_eq_iff}
use deska.Base.Dict.{find, insert, find-insert, text_ord}
use deska.Db.Exec.{ok}
use deska.Db.Objects.{relation_embed_into}
use deska.Cli.Diff.Converters.{ObjectDefinition, object_eq}
use deska.Cli.Path.Context.{object_item}
use deska.Cli.Relations.{Relations, db_interaction, entry, has}
use deska.Cli.Session.Interface.{other_error, server_error}
use deska.Cli.Objects.Key.{object_compare}
use deska.Cli.Objects.State.{State}
use deska.Cli.Objects.Expand.{Item}
use deska.Cli.Objects.Laws.{update}
use deska.Cli.Objects.Example.{object, api, Known, names-Known}
use deska.Cli.Objects.Contained.Answers.{Distinct}
use deska.Cli.Objects.Transitive.{all_nested_transitively, all_nested_transitively_in}
use deska.Cli.Objects.Transitive.Enough.{all_nested_transitively_in-enough}
use deska.Cli.Objects.Transitive.Reached.{Reachable, all_nested_transitively-Reachable}

abbrev text : Text → Text
text t = t

abbrev scheme : Relations
scheme = db_interaction (
    (codes "host", [])
    ∷ (
      codes "interface",
      record { kind = relation_embed_into; target = codes "host"; column = codes "host" } ∷ [],
    )
    ∷ [])

abbrev interface_a : ObjectDefinition
interface_a = object (codes "interface") (codes "a")

abbrev interface_b : ObjectDefinition
interface_b = object (codes "interface") (codes "b")

abbrev start : State api
start = record {
  server = update interface_a true (update interface_b true (λ o. false));
  relations = scheme;
  stable_view = true;
  object_exists_cache = [];
}

abbrev of_host : List (Item api text)
of_host = object_item (codes "host") (codes "h") ∷ []

abbrev rank : Text → ℕ
rank k = if text_eq k (codes "host") then 1 else 0

rank_interface : rank (codes "interface") < 1
unfolding text_compare
rank_interface = omega arith

interface_lower : (j : Text) → has (codes "interface" ∷ []) j ≡ true → rank j < 1
interface_lower j h = by_test (text_eq (codes "interface") j) refl h
  where
    by_test : (b : Bool) → text_eq (codes "interface") j ≡ b → (b || false) ≡ true → rank j < 1
    by_test true q m =
        subst (λ i. rank i < 1) ((text_eq_iff (codes "interface") j).0 q) rank_interface
    by_test false q m = cc

abbrev or_entry : Option (List Text) → List Text
or_entry c = elim c [ none ↦ [] | some ks ↦ ks ]

find_embeds :
    (k : Text)
    → find k scheme.embeds
      ≡ (if text_eq k (codes "host") then some (codes "interface" ∷ []) else none)
unfolding find insert db_interaction text_compare
find_embeds k = find-insert k (codes "host") (codes "interface" ∷ []) []

ranked : (k j : Text) → has (entry scheme.embeds k) j ≡ true → rank j < rank k
ranked k j h =
    by_test (text_eq k (codes "host")) (subst (λ c. has (or_entry c) j ≡ true) (find_embeds k) h)
  where
    by_test :
        (b : Bool)
        → has (or_entry (if b then some (codes "interface" ∷ []) else none)) j ≡ true
        → rank j < (if b then 1 else 0)
    by_test true m = interface_lower j m
    by_test false m = cc

all_nested_transitively_in-enough_example :
    all_nested_transitively_in api text other_error 2 of_host start
    ≡ all_nested_transitively_in api text server_error 7 of_host start
unfolding text_compare
all_nested_transitively_in-enough_example =
    all_nested_transitively_in-enough api text scheme rank ranked other_error server_error 2 7
      of_host (object_item (codes "host") (codes "h")) start refl (omega arith) (omega arith) refl

abbrev host_h : ObjectDefinition
host_h = object (codes "host") (codes "h")

abbrev after_search : State api
after_search = (all_nested_transitively api text other_error 2 host_h start).1

search_value :
    all_nested_transitively api text other_error 2 host_h start
    ≡ (ok (interface_a ∷ interface_b ∷ []), after_search)
unfolding text_compare all_nested_transitively object_compare find insert update db_interaction
    object_eq deska.Cli.Path.identifier deska.Cli.Path.group deska.Cli.Path.skip
    deska.Cli.Path.more_identifiers deska.Cli.Path.groups
search_value = refl

all_nested_transitively-Reachable_example :
    All (Reachable text scheme Known host_h) (interface_a ∷ interface_b ∷ [])
    × Distinct (interface_a ∷ interface_b ∷ [])
all_nested_transitively-Reachable_example =
    all_nested_transitively-Reachable api text scheme Known names-Known host_h other_error 2 start
      (interface_a ∷ interface_b ∷ []) after_search refl search_value
