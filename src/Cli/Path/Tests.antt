-- ===== src/Cli/Path/Tests.antt =====
-- The round trip of paths and the items of the context stack, at concrete names.
use deska.Base.{
  List, [], ◌∷◌, ◌++◌, some, none, Option, Bool, true, false, ◌↔◌, ◌≡◌, refl, map, arith,
}
use deska.Base.Text.{Text, codes}
use deska.Cli.Path.Context.{
  ContextStackItem, object_item, filter_item, item_eq, item_eq_iff, context_stack_to_path,
  context_stack_to_path-eq-vector_to_path,
}
use deska.Cli.Path.{is_word, path_to_vector, vector_to_path}
use deska.Cli.Path.RoundTrip.{Name, name_of, last_name, path_to_vector-vector_to_path}

abbrev hpv : Name
hpv = record {
  head = record { lead = 0; first = b'h'; word = codes "p" };
  more = record { lead = 1; first = b'2'; word = [] } ∷ [];
}

abbrev eth : Name
eth = record { head = record { lead = 0; first = b'e'; word = codes "th_0" }; more = [] }

-- the names are "hp-2", "eth_0" and the empty one
path_to_vector-vector_to_path_example :
    path_to_vector (vector_to_path (name_of hpv ∷ (map name_of (eth ∷ []) ++ last_name true)))
    ≡ some (codes "hp-2" ∷ codes "eth_0" ∷ [] ∷ [])
unfolding is_word
path_to_vector-vector_to_path_example =
    path_to_vector-vector_to_path hpv (eth ∷ []) true
      ((refl, (refl, tt)), ((refl, tt), omega arith, tt))
      (((refl, (refl, (refl, (refl, (refl, tt))))), tt), tt)

abbrev same : Bool → Bool → Bool
same true b = b
same false true = false
same false false = true

same_iff : (f g : Bool) → (same f g ≡ true) ↔ (f ≡ g)
same_iff true true = ground arith
same_iff true false = ground arith
same_iff false true = ground arith
same_iff false false = ground arith

-- a host and an interface of it
abbrev stack : List (ContextStackItem Bool)
stack = object_item (codes "host") (codes "hp") ∷ object_item (codes "interface") (codes "e") ∷ []

context_stack_to_path-eq-vector_to_path_example :
    context_stack_to_path stack ≡ some (vector_to_path (codes "hp" ∷ codes "e" ∷ []))
context_stack_to_path-eq-vector_to_path_example = context_stack_to_path-eq-vector_to_path stack

abbrev no_name : Text
no_name = []

abbrev anything : Option Bool
anything = none

-- an object with the empty name beside a filter that matches everything
item_eq_iff_example :
    ((item_eq same (object_item (codes "host") no_name) (object_item (codes "host") no_name) ≡ true)
      ↔ ((codes "host" ≡ codes "host") × (no_name ≡ no_name)))
    × ((item_eq same (filter_item (codes "host") (some true)) (filter_item (codes "host") anything)
          ≡ true)
        ↔ ((codes "host" ≡ codes "host") × (some true ≡ anything)))
    × ((item_eq same (object_item (codes "host") no_name) (filter_item (codes "host") anything)
          ≡ true)
        ↔ ((codes "host" ≡ codes "host") × (no_name ≡ no_name) × (anything ≡ anything)))
item_eq_iff_example =
    item_eq_iff same same_iff (codes "host") no_name (codes "host") no_name (some true) anything
