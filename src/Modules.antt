-- ===== src/Modules.antt =====
-- modules/modules.go: the modules of an application and the order of their dependencies.
use dskit.Base.{
  Bool, List, Option, String, [], contains, false, if◌then◌else◌, length, ltb, map, nat_eq, none,
  not, some, string_eq, suc, true, zero, ℕ, ◌++◌, ◌∷◌,
}
use dskit.Base.Maps.{Map, insert, lookup}
pub mod Ordered
pub mod Ends
pub mod Dependencies
mod Examples
use mathlib.Core.Option
use dskit.Ring.Update.{insert_string}

-- `module`; what its function returns is in `InitResult`, `none` for a function that is nil.
pub data InitResult : Type 0 where
  no_service a_service init_error : InitResult

pub record Module : Type 0 where
  pub deps : List String
  pub init_fn : Option InitResult
  pub user_visible : Bool

abbrev pub Modules : Type 0
Modules = Map String Module

-- `RegisterModule`, with the option UserInvisibleModule or without
unfoldable pub register_module : String → Option InitResult → Bool → Modules → Modules
register_module name init_fn invisible mods =
    insert name (record { deps = []; init_fn = init_fn; user_visible = not invisible }) mods

-- `AddDependency`; `none` is the error about a module that is missing
unfoldable pub add_dependency : String → List String → Modules → Option Modules
add_dependency name depends_on mods = elim (lookup name mods) [
  | none ↦ none
  | some m ↦ some (insert name (record m { deps = m.deps ++ depends_on }) mods)
]

unfoldable pub is_user_visible_module : String → Modules → Bool
is_user_visible_module name mods = elim (lookup name mods) [
  | none ↦ false
  | some m ↦ m.user_visible
]

unfoldable pub is_module_registered : String → Modules → Bool
is_module_registered name mods = elim (lookup name mods) [ none ↦ false | some m ↦ true ]

unfoldable pub user_visible_module_names : Modules → List String
unfolding insert_string
user_visible_module_names [] = []
user_visible_module_names ((name, m) ∷ rest) =
    let names = user_visible_module_names rest in
    if m.user_visible then insert_string name names else names

-- The dependencies of a module, none for one that is missing.
abbrev pub deps_of : Modules → String → List String
deps_of mods name = elim (lookup name mods) [ none ↦ [] | some m ↦ m.deps ]

abbrev pub append_all : (String → Option (List String)) → List String → Option (List String)
append_all f [] = some []
append_all f (d ∷ ds) = elim (f d) [
  | none ↦ none
  | some xs ↦ Option.map (λ rest. xs ++ rest) (append_all f ds)
]

-- `listDeps`, with fuel for its depth; `none` if the fuel runs out, as for modules that depend on
-- themselves, or at a module that is missing, where the code panics
unfoldable pub list_deps : ℕ → Modules → String → Option (List String)
list_deps zero mods name = none
list_deps (suc depth) mods name = elim (lookup name mods) [
  | none ↦ none
  | some m ↦ Option.map (λ rest. m.deps ++ rest) (append_all (list_deps depth mods) m.deps)
]

-- the names once each
unfoldable pub unique : List String → List String
unique [] = []
unique (n ∷ ns) = let rest = unique ns in if contains rest n then rest else n ∷ rest

-- Whether all dependencies were added.
unfoldable pub all_added : List String → List String → Bool
all_added added [] = true
all_added added (d ∷ ds) = let rest = all_added added ds in if contains added d then rest else false

-- The body of the inner loop of `orderedDeps`. The flag of a name is set when it is appended to the
-- result, so that the result has the names whose flag is set.
unfoldable pub add_if_ready : (String → List String) → String → List String → List String
unfolding all_added
add_if_ready deps name result =
    if contains result name
    then result
    else if all_added result (deps name)
    then result ++ name ∷ []
    else result

-- the inner loop, over the names in the order in which the map happens to give them
unfoldable pub pass : (String → List String) → List String → List String → List String
unfolding add_if_ready
pass deps [] result = result
pass deps (n ∷ ns) result = pass deps ns (add_if_ready deps n result)

-- the outer loop, on fuel, with the order of each pass
unfoldable pub order_loop :
    (String → List String) → ℕ → (ℕ → List String) → ℕ → List String → Option (List String)
unfolding pass
order_loop deps number order zero result = none
order_loop deps number order (suc fuel) result =
    let rest = order_loop deps number order fuel (pass deps (order fuel) result) in
    if ltb (length result) number then rest else some result

-- `orderedDeps`
unfoldable pub ordered_deps :
    ℕ → ℕ → (List String → ℕ → List String) → Modules → String → Option (List String)
unfolding list_deps unique order_loop
ordered_deps depth fuel order mods name = elim (list_deps depth mods name) [
  | none ↦ none
  | some deps ↦
      let names = unique deps in order_loop (deps_of mods) (length names) (order names) fuel []
]

-- `findInverseDependencies`
unfoldable pub find_inverse_dependencies : Modules → String → List String → List String
find_inverse_dependencies mods name [] = []
find_inverse_dependencies mods name (n ∷ ns) =
    let rest = find_inverse_dependencies mods name ns in
    if contains (deps_of mods n) name then n ∷ rest else rest

-- `DependenciesForModule`, sorted
unfoldable pub sort_names : List String → List String
unfolding insert_string
sort_names [] = []
sort_names (n ∷ ns) = insert_string n (sort_names ns)

unfoldable pub dependencies_for_module : ℕ → Modules → String → Option (List String)
unfolding list_deps unique sort_names
dependencies_for_module depth mods name =
    Option.map (λ deps. sort_names (unique deps)) (list_deps depth mods name)
