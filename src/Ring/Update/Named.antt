-- ===== src/Ring/Update/Named.antt =====
-- ring/model.go: getTokensInfo names instances of the ring only.
use dskit.Base.{==_iff, List, String, [], arith, nat_eq, none, some, string_eq, ℕ, ◌∷◌, ◌≡◌, ◌≢◌}
use dskit.Base.Maps.{Map, insert, lookup, lookup-insert}
use dskit.Ring.Types.{Desc, InstanceDesc}
use dskit.Ring.State.{InstanceInfo}
use dskit.Ring.Update.{get_tokens_info, info_from, set_info}

-- The infos of tokens name instances of the ring.
abbrev pub IsNamed : (ingesters : Map String InstanceDesc) (infos : Map ℕ InstanceInfo) → Type 0
IsNamed ingesters infos =
    (token : ℕ) (info : InstanceInfo)
    → lookup token infos ≡ some info
    → lookup info.instance_id ingesters ≢ none

module _ (ingesters : Map String InstanceDesc) where
  set_info-IsNamed :
      (info : InstanceInfo) (tokens : List ℕ) (out : Map ℕ InstanceInfo)
      → lookup info.instance_id ingesters ≢ none
      → IsNamed ingesters out
      → IsNamed ingesters (set_info info tokens out)
  unfolding set_info
  set_info-IsNamed info [] out there named = named
  set_info-IsNamed info (t ∷ ts) out there named =
      set_info-IsNamed info ts (insert t info out) there
        (λ token seen h. ground (arith, lookup-insert t token info out, named token seen))

  info_from-IsNamed :
      (m : Map String InstanceDesc) (out : Map ℕ InstanceInfo)
      → ((id : String) → lookup id m ≢ none → lookup id ingesters ≢ none)
      → IsNamed ingesters out
      → IsNamed ingesters (info_from m out)
  unfolding info_from lookup
  info_from-IsNamed [] out part named = named
  info_from-IsNamed ((id, i) ∷ m) out part named =
      let info : InstanceInfo = record { instance_id = id; zone = i.zone } in
      info_from-IsNamed m (set_info info i.tokens out) (λ j h. part j (ground (arith, h)))
        (set_info-IsNamed info i.tokens out (part id (ground (arith, ==_iff id id))) named)

pub get_tokens_info-IsNamed : (d : Desc) → IsNamed d.ingesters (get_tokens_info d)
unfolding get_tokens_info
get_tokens_info-IsNamed d =
    info_from-IsNamed d.ingesters d.ingesters [] (λ id h. h)
      (λ token info h. unfold lookup in ground arith)
