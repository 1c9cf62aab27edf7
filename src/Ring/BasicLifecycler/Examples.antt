-- ===== src/Ring/BasicLifecycler/Examples.antt =====
-- The theorems on basic lifecyclers at a concrete ring, and tests.
use dskit.Base.{[], false, nat_eq, none, refl, some, string_eq, true, ◌*◌, ◌+◌, ◌↔◌, ◌∷◌, ◌≡◌, ◌≤◌}
use dskit.Base.Int.{int_eq, pos}
use dskit.Base.Sort.{sort}
use dskit.Base.Maps.{delete, insert, lookup}
use dskit.Ring.Types.{Desc, InstanceDesc, active}
use dskit.Ring.Lifecycler.{CallEnv, ring_of}
use dskit.Ring.BasicLifecycler.{BasicConfig, Delegate, InstanceOutcome}
use dskit.Ring.BasicLifecycler.Delegates.{auto_forget, forget_loop}
use dskit.Ring.BasicLifecycler.Forgotten.{forget_loop_lem}
use dskit.Ring.BasicLifecycler.Phases.{starting, heartbeat}
use dskit.Ring.BasicLifecycler.Updated.{heartbeat_lem}

abbrev basic : BasicConfig
basic = record {
  id = "one";
  addr = "a1";
  zone = "";
  heartbeat_period = 5;
  tokens_observe_period = 0;
  num_tokens = 1;
  keep_instance_in_the_ring_on_shutdown = false;
}

-- A delegate that joins as ACTIVE with one token.
abbrev joins : Delegate
joins = record {
  on_register = λ current d exists id i. (active, 7 ∷ []);
  on_tokens = λ tokens. [];
  on_stopping = [];
  on_heartbeat = λ now_ns d i. (d, i);
}

abbrev env : CallEnv
env = record { now_ns = 100_000_000_000; drawn = [] }

abbrev entry_one : InstanceDesc
entry_one = record {
  addr = "a1";
  timestamp = 100;
  state = active;
  tokens = 7 ∷ [];
  zone = "";
  registered_timestamp = pos 100;
}

abbrev ring_of_one : Desc
ring_of_one = record { ingesters = ("one", entry_one) ∷ [] }

-- A lifecycler that starts registers itself and tells its tokens.
started :
    starting basic joins (record { attempts = []; last_call = some env }) [] none
    ≡ some (record {
      world = record { current = some entry_one; ring = some ring_of_one };
      told = 7 ∷ [];
      no_error = true;
    })
unfolding starting dskit.Ring.Desc.add_ingester dskit.Base.Sort.sort lookup dskit.Base.Maps.insert
started = refl

abbrev stale_ring : Desc
stale_ring = record {
  ingesters = ("old", record entry_one { timestamp = 3 }) ∷ ("one", entry_one) ∷ [];
}

forget_loop_lem_example :
    (lookup "one"
        (forget_loop 60_000_000_000 100_000_000_000 stale_ring.ingesters stale_ring).ingesters
      ≡ some entry_one)
    ↔ ((lookup "one" stale_ring.ingesters ≡ some entry_one)
        × (100_000_000_000 ≤ entry_one.timestamp * 1_000_000_000 + 60_000_000_000))
unfolding lookup
forget_loop_lem_example =
    forget_loop_lem 60_000_000_000 100_000_000_000 stale_ring "one" entry_one (refl, (refl, tt))

-- the other one is removed
stale_goes :
    lookup "old"
      (forget_loop 60_000_000_000 100_000_000_000 stale_ring.ingesters stale_ring).ingesters
    ≡ none
unfolding lookup forget_loop dskit.Base.Maps.delete
stale_goes = refl

heartbeat_lem_example :
    (o : InstanceOutcome) × (i : InstanceDesc) × (heartbeat basic
        (auto_forget 10 joins)
        (record { attempts = []; last_call = some env })
        (some stale_ring)
        none
      ≡ some o)
    × (o.no_error ≡ true)
    × (o.current ≡ some i)
    × (lookup "one" (ring_of o.ring).ingesters ≡ some i)
    × (i.timestamp ≡ 100)
heartbeat_lem_example = heartbeat_lem basic (auto_forget 10 joins) [] env (some stale_ring) none
