-- ===== src/Ring/Tokens/Examples.antt =====
-- Tests of tokens and their files.
use dskit.Base.{
  List, [], if◌then◌else◌, nat_eq, none, refl, some, string_eq, true, ℕ, ◌==◌, ◌∷◌, ◌≡◌,
}
use dskit.Base.Int.{negsuc, pos}
use dskit.Base.Sort.{ensure_sorted, sort}
use dskit.Ring.Tokens.{TokenFiles, get_instance_port, load_tokens_from_file, tokens_equals}

-- A file system of one file, whose tokens are not sorted.
abbrev one_file : TokenFiles
one_file = record {
  File = List ℕ;
  read_file = λ path. if path == "tokens" then some (5 ∷ 2 ∷ []) else none;
  encode = λ tokens. some tokens;
  decode = λ file. some file;
}

loads_sorted : load_tokens_from_file one_file "tokens" ≡ some (2 ∷ 5 ∷ [])
unfolding load_tokens_from_file dskit.Base.Sort.ensure_sorted
loads_sorted = refl

missing_file : load_tokens_from_file one_file "other" ≡ none
unfolding load_tokens_from_file
missing_file = refl

equal_up_to_order : (tokens_equals (5 ∷ 2 ∷ []) (2 ∷ 5 ∷ [])).0 ≡ true
unfolding tokens_equals dskit.Base.Sort.sort
equal_up_to_order = refl

port_configured : get_instance_port (pos 80) (pos 9095) ≡ pos 80
unfolding get_instance_port
port_configured = refl

port_of_listener : get_instance_port (negsuc 0) (pos 9095) ≡ pos 9095
unfolding get_instance_port
port_of_listener = refl
