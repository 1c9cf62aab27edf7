-- ===== src/Ring/Tokens.antt =====
-- ring/util.go: GenerateTokens; ring/tokens.go: Tokens and its files. The numbers that Uint32
-- draws are a list; a loop that has used all of them is still drawing, which is `none`.
use dskit.Base.{
  Bool, List, Option, String, [], contains, false, if◌then◌else◌, length, map, nat_eq, none, some,
  string_eq, suc, true, zero, ℕ, ◌&&◌, ◌==◌, ◌∷◌,
}
use dskit.Base.Int.{pos, ℤ}
use dskit.Base.Sort.{ensure_sorted, sort}
use mathlib.Core.Option
pub mod Generated
pub mod Equal
mod Examples

-- the loop of `GenerateTokens`, with the tokens left to find and the map `used`
unfoldable pub draw_tokens : ℕ → List ℕ → List ℕ → Option (List ℕ)
draw_tokens zero drawn used = some []
draw_tokens (suc i) [] used = none
draw_tokens (suc i) (candidate ∷ drawn) used =
    let again = draw_tokens (suc i) drawn used in
    let rest = draw_tokens i drawn (candidate ∷ used) in
    if contains used candidate then again else Option.map (λ tokens. candidate ∷ tokens) rest

-- `GenerateTokens`; for `numTokens <= 0` the loop has no rounds
unfoldable pub generate_tokens : ℕ → List ℕ → List ℕ → Option (List ℕ)
unfolding draw_tokens
generate_tokens num_tokens taken_tokens drawn =
    Option.map sort (draw_tokens num_tokens drawn taken_tokens)

-- the loop that `Equals` and `compareTokens` share, over lists of one length
unfoldable pub same_elements : List ℕ → List ℕ → Bool
same_elements [] other = true
same_elements (t ∷ mine) [] = false
same_elements (t ∷ mine) (u ∷ other) = t == u && same_elements mine other

-- `Tokens.Equals`, with both slices as it leaves them: sorted, if their lengths agree
unfoldable pub tokens_equals : List ℕ → List ℕ → Bool × List ℕ × List ℕ
unfolding same_elements
tokens_equals mine other =
    if length mine == length other
    then (same_elements (sort mine) (sort other), sort mine, sort other)
    else (false, mine, other)

-- `GetInstancePort`
unfoldable pub get_instance_port : ℤ → ℤ → ℤ
get_instance_port (pos (suc n)) listen_port = pos (suc n)
get_instance_port _ listen_port = listen_port

-- The files and the JSON codec, which the code takes from its libraries; `none` is an error.
pub record TokenFiles : Type 1 where
  pub File : Type 0
  pub read_file : String → Option File
  pub encode : List ℕ → Option File
  pub decode : File → Option (List ℕ)

-- `LoadTokensFromFile`; on a decoding error the tokens are nil
unfoldable pub load_tokens_from_file : (files : TokenFiles) → String → Option (List ℕ)
load_tokens_from_file files path = elim (files.read_file path) [
  | none ↦ none
  | some b ↦ Option.map ensure_sorted (files.decode b)
]
