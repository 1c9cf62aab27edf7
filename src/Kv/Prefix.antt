-- ===== src/Kv/Prefix.antt =====
-- kv/prefix.go: the client that puts a prefix before every key.
use dskit.Base.{
  List, Option, String, [], ap, if◌then◌else◌, map, refl, starts_with, sym, ◌∙◌, ◌∷◌, ◌≡◌,
}
use Prim.Native.String
use Prim.Native.String.{slice, len}
use text.Mathlib.TextPositions.{starts_with-append, slice-append_right, len-append}

-- What a Client answers to Get and List.
pub record Reads (V : Type 0) : Type 0 where
  pub get : String → Option V
  pub list : String → List String

-- `strings.TrimPrefix`
unfoldable pub trim_prefix : String → String → String
trim_prefix s prefix = if starts_with s prefix then slice s (len prefix) (len s) else s

-- `prefixedKVClient`
unfoldable pub prefix_client : {V : Type 0} → String → Reads V → Reads V
unfolding trim_prefix
prefix_client prefix client = record {
  get = λ key. client.get (String.◌++◌ prefix key);
  list = λ p. map (λ key. trim_prefix key prefix) (client.list (String.◌++◌ prefix p));
}

trim_prefix-append : (prefix s : String) → trim_prefix (String.◌++◌ prefix s) prefix ≡ s
unfolding trim_prefix
trim_prefix-append prefix s = rw (starts_with-append prefix s) (
    ap (slice (String.◌++◌ prefix s) (len prefix)) (len-append prefix s)
    ∙ slice-append_right prefix s)

-- Keys with the prefix, by what follows it.
abbrev pub all_with : String → List String → List String
all_with prefix = map (λ s. String.◌++◌ prefix s)

map_trim :
    (prefix : String) (names : List String)
    → map (λ key. trim_prefix key prefix) (all_with prefix names) ≡ names
map_trim prefix [] = refl
map_trim prefix (s ∷ names) =
    ap (λ t. t ∷ map (λ key. trim_prefix key prefix) (all_with prefix names))
      (trim_prefix-append prefix s)
    ∙ ap (λ l. s ∷ l) (map_trim prefix names)

map_get :
    {V : Type 0} (prefix : String) (client : Reads V) (names : List String)
    → map (prefix_client prefix client).get names ≡ map client.get (all_with prefix names)
unfolding prefix_client
map_get prefix client [] = refl
map_get prefix client (s ∷ names) =
    ap (λ l. client.get (String.◌++◌ prefix s) ∷ l) (map_get prefix client names)

-- If the keys that a client lists under a prefix begin with it, the prefixed client lists what
-- follows it, and reads for each of these names what the client reads for the key.
pub prefix_client-list :
    {V : Type 0} (prefix p : String) (client : Reads V) (names : List String)
    → client.list (String.◌++◌ prefix p) ≡ all_with prefix names
    → ((prefix_client prefix client).list p ≡ names)
      × (map (prefix_client prefix client).get ((prefix_client prefix client).list p)
          ≡ map client.get (client.list (String.◌++◌ prefix p)))
unfolding prefix_client
prefix_client-list prefix p client names h =
    let listed : (prefix_client prefix client).list p ≡ names =
      ap (map (λ key. trim_prefix key prefix)) h ∙ map_trim prefix names in
    (
      listed,
      ap (map (prefix_client prefix client).get) listed
          ∙ map_get prefix client names
          ∙ sym (ap (map client.get) h),
    )
