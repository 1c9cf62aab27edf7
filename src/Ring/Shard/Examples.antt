-- ===== src/Ring/Shard/Examples.antt =====
-- Shards of a ring of three instances.
use dskit.Base.{
  String, [], false, length, nat_eq, refl, some, string_eq, subst, ℕ, ◌+◌, ◌∷◌, ◌≡◌, ◌≤◌,
}
use dskit.Base.Maps.{insert, lookup}
use dskit.Ring.Types.{InstanceDesc, zero_instance}
use dskit.Ring.State.{Ring, InstanceInfo}
use dskit.Ring.Update.{get_tokens_info}
use dskit.Ring.Update.Named.{IsNamed, get_tokens_info-IsNamed}
use dskit.Ring.Shard.{
  Random, shard_ring, shuffle_shard_from, expected_instances, find_cached,
  set_cached_shuffled_subring, cleanup_shuffle_shard_cache, count_tokens,
}
use dskit.Ring.Shard.Choices.{most_instances}
use dskit.Ring.Shard.Within.{IsSubring, shuffle_shard_from-IsShard}

abbrev owner : String → ℕ → InstanceDesc
owner addr token = record zero_instance { addr = addr; tokens = token ∷ [] }

abbrev info : String → InstanceInfo
info id = record { instance_id = id; zone = "" }

abbrev three : Ring
three = record {
  replication_factor = 1;
  heartbeat_timeout = 0;
  zone_awareness_enabled = false;
  excluded_zones = [];
  ring_desc = record {
    ingesters = ("a", owner "a:1" 10) ∷ ("b", owner "b:1" 20) ∷ ("c", owner "c:1" 30) ∷ [];
  };
  ring_tokens = 10 ∷ 20 ∷ 30 ∷ [];
  ring_tokens_by_zone = [];
  ring_instance_by_token = (10, info "a") ∷ (20, info "b") ∷ (30, info "c") ∷ [];
  ring_zones = [];
  last_topology_change = 1;
}

-- The numbers 25, 26, …
abbrev random : Random
random identifier zone i = 25 + i

abbrev of_two : Ring
of_two = shard_ring three (("c", owner "c:1" 30) ∷ ("a", owner "a:1" 10) ∷ [])

is_of_two : shuffle_shard_from random "tenant" 2 0 0 three ≡ some of_two
unfolding shuffle_shard_from dskit.Base.Maps.lookup dskit.Ring.Search.search_token
    dskit.Base.Maps.insert
is_of_two = refl

three_infos : get_tokens_info three.ring_desc ≡ three.ring_instance_by_token
unfolding get_tokens_info dskit.Base.Maps.insert
three_infos = refl

three-IsNamed : IsNamed three.ring_desc.ingesters three.ring_instance_by_token
three-IsNamed =
    subst (IsNamed three.ring_desc.ingesters) three_infos (get_tokens_info-IsNamed three.ring_desc)

shuffle_shard_from-IsShard_example :
    IsSubring three 2 of_two
    × (◌≡◌ {A = ℕ} 0 0 → length of_two.ring_desc.ingesters ≤ most_instances three 2)
shuffle_shard_from-IsShard_example =
    shuffle_shard_from-IsShard random "tenant" 2 0 0 three of_two three-IsNamed is_of_two

rounded_up : expected_instances 7 3 ≡ 9
unfolding expected_instances
rounded_up = refl

cached :
    find_cached "tenant" 2 (set_cached_shuffled_subring false "tenant" 2 of_two three [])
    ≡ some of_two
unfolding find_cached set_cached_shuffled_subring shard_ring
cached = refl

cleaned :
    cleanup_shuffle_shard_cache false "tenant"
      (set_cached_shuffled_subring false "tenant" 2 of_two three [])
    ≡ []
unfolding cleanup_shuffle_shard_cache set_cached_shuffled_subring shard_ring
cleaned = refl

owned : (count_tokens three).owned ≡ ("a", 10) ∷ ("b", 10) ∷ ("c", 4_294_967_275) ∷ []
unfolding count_tokens dskit.Base.Maps.lookup dskit.Base.Maps.insert
owned = refl
