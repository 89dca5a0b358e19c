-- ===== src/Tests/Executing.antt =====
-- Operations and linked maps at concrete inputs.
use graphql.Prelude.{ℕ, suc, String, ◌≡◌, ◌↔◌, refl, List, [], ◌∷◌, some, length, map, ◌==◌}
use graphql.Prelude.Result.{ok}
use graphql.Lexer.Parser.{no_location}
use graphql.Schema.Query.Parse.{Operation, QueryDocument, query, no_selections}
use graphql.Schema.Query.Operations.{get_operation, Runs, get_operation_iff}
use graphql.Exec.Store
use graphql.Exec.Store.{follow, look_up, set, create_linked_map}
use graphql.Exec.Store.Layout.{represent}
use graphql.Exec.Store.Order.{
  insert, get-represent, set-represent, set_all, insert_all, follow-set_all,
}

abbrev operation : String → Operation
operation name = record {
  type = query;
  name = name;
  name_loc = no_location;
  vars = [];
  selections = no_selections;
  directives = [];
  loc = no_location;
}

abbrev two_operations : QueryDocument
two_operations = record { operations = operation "A" ∷ operation "B" ∷ []; fragments = [] }

get_operation_iff_example :
    (get_operation two_operations "B" ≡ ok (operation "B"))
    ↔ Runs (operation "A" ∷ operation "B" ∷ []) "B" (operation "B")
get_operation_iff_example = get_operation_iff two_operations "B" (operation "B")

abbrev entries : List (String × ℕ)
entries = ("b", 1) ∷ ("a", 2) ∷ []

set_test : (set ◌==◌ (set ◌==◌ (create_linked_map String ℕ) "b" 1).1 "a" 2).1 ≡ represent entries
unfolding set look_up Store.modify
set_test = refl

get-represent_example : Store.get ◌==◌ (represent entries) "a" ≡ look_up ◌==◌ entries "a"
get-represent_example = get-represent ◌==◌ entries "a"

set-represent_example :
    set ◌==◌ (represent entries) "b" 3
    ≡ (look_up ◌==◌ entries "b", represent (insert ◌==◌ entries "b" 3))
set-represent_example = set-represent ◌==◌ entries "b" 3

-- A key comes twice.
abbrev calls : List (String × ℕ)
calls = ("b", 1) ∷ ("a", 2) ∷ ("b", 3) ∷ []

calls_test : insert_all ◌==◌ [] calls ≡ ("b", 3) ∷ ("a", 2) ∷ []
unfolding insert_all insert
calls_test = refl

follow-set_all_example :
    let m = set_all ◌==◌ (create_linked_map String ℕ) calls in
    follow (suc (length (insert_all ◌==◌ [] calls))) m.store m.first
    ≡ some (map (λ (x : String × ℕ). x.1) (insert_all ◌==◌ [] calls))
follow-set_all_example = follow-set_all ◌==◌ calls
