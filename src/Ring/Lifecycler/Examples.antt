-- ===== src/Ring/Lifecycler/Examples.antt =====
-- The theorems on lifecyclers at a concrete ring of one other instance, and tests.
use dskit.Base.{
  IsDistinct, List, Option, String, [], arith, contains, false, if◌then◌else◌, length, nat_eq, none,
  refl, some, string_eq, true, ℕ, ◌==◌, ◌∷◌, ◌≡◌, ◌⊎◌,
}
use dskit.Base.Int.{int_eq, pos}
use dskit.Base.Sort.{IsSorted, ensure_sorted, sort}
use dskit.Base.Maps.{delete, insert, lookup}
use dskit.Ring.Types.{Desc, InstanceDesc, active, instance_at, leaving, zero_instance}
use dskit.Kv.{keep_value, store}
use dskit.Ring.Desc.{get_registered_at, zero_time}
use dskit.Ring.Tokens.{generate_tokens}
use dskit.Ring.Tokens.Generated.{generate_tokens-AreFresh, generate_tokens_total}
use dskit.Ring.Update.{tokens_for}
use dskit.Ring.Lifecycler.{
  CallEnv, Lifecycler, LifecyclerConfig, init_ring_call, new_lifecycler, ring_of, unix,
  update_counters,
}
use dskit.Ring.Lifecycler.Callbacks.{
  RingOutcome, RingRun, claim_tokens_call, update_consul, verify_tokens_call,
}
use dskit.Ring.Lifecycler.Claim.{claim_tokens_call_lem, tokens_at}
use dskit.Ring.Lifecycler.Heartbeat.{Tells, tokens_before, update_consul_lem}
use dskit.Ring.Lifecycler.Init.{Agrees, IsHeld, init_ring_call-Agrees}
use dskit.Ring.Lifecycler.Latch.{HeldLong, check_all-HeldLong}
use dskit.Ring.Lifecycler.Loop.{World, change_request, here, loop_step, next, stopping}
use dskit.Ring.Lifecycler.Ownership.{Replaced, StillOwned, verify_tokens_call_lem}
use dskit.Ring.Lifecycler.Ready.{ReadyCall, check_all, got}
use dskit.Ring.Lifecycler.Shutdown.{stopping-unregistered}
use dskit.Ring.Lifecycler.States.{Reach-leaving, loop_step-Follows}
use dskit.Ring.Lifecycler.Transitions.{Follows}

abbrev one : LifecyclerConfig
one = record {
  id = "one";
  addr = "a1";
  zone = "z";
  num_tokens = 2;
  heartbeat_period = 5;
  observe_period = 0;
  heartbeat_timeout = 60_000_000_000;
  min_ready_duration = 10_000_000_000;
  readiness_check_ring_health = false;
}

abbrev two_instance : InstanceDesc
two_instance = record zero_instance { addr = "a2"; timestamp = 90; tokens = 9 ∷ 4 ∷ [] }

abbrev ring_of_two : Desc
ring_of_two = record { ingesters = ("two", two_instance) ∷ [] }

-- 100 seconds after 1970 began
abbrev env : CallEnv
env = record { now_ns = 100_000_000_000; drawn = 4 ∷ 7 ∷ 7 ∷ 1 ∷ [] }

abbrev at_once : RingRun
at_once = record { attempts = []; last_call = some env }

abbrev running_one : Lifecycler
running_one = record (new_lifecycler true true) {
  state = active;
  tokens = 7 ∷ 1 ∷ [];
  registered_at = pos 50;
}

abbrev picked : List ℕ
picked = 1 ∷ 7 ∷ []

generated : generate_tokens 2 (4 ∷ 9 ∷ []) (4 ∷ 7 ∷ 7 ∷ 1 ∷ []) ≡ some picked
unfolding generate_tokens dskit.Base.Sort.sort
generated = refl

generate_tokens-AreFresh_example :
    (length picked ≡ 2)
    × IsSorted picked
    × IsDistinct picked
    × ((t : ℕ) → contains picked t ≡ true → contains (4 ∷ 9 ∷ []) t ≡ false)
generate_tokens-AreFresh_example =
    generate_tokens-AreFresh 2 (4 ∷ 9 ∷ []) (4 ∷ 7 ∷ 7 ∷ 1 ∷ []) picked generated

generate_tokens_total_example :
    (tokens : List ℕ) × (generate_tokens 2 (4 ∷ 9 ∷ []) (4 ∷ 7 ∷ 7 ∷ 1 ∷ []) ≡ some tokens)
generate_tokens_total_example =
    generate_tokens_total 2 (4 ∷ 9 ∷ []) (4 ∷ 7 ∷ 7 ∷ 1 ∷ []) (7 ∷ 1 ∷ []) (omega arith)
      (refl, (refl, tt)) ((refl, refl), ((refl, refl), tt))

update_consul_lem_example :
    (d : Desc) × (i : InstanceDesc) × (update_consul one at_once 7 (some ring_of_two) running_one
      ≡ some (record {
        lifecycler = update_counters one 7 d running_one;
        ring = some d;
        no_error = true;
      }))
    × Tells one env running_one i
    × (get_registered_at i ≡ pos 50)
    × (i.tokens ≡ tokens_before one ring_of_two running_one)
    × ((id : String)
        → lookup id d.ingesters ≡ (if "one" == id then some i else lookup id ring_of_two.ingesters))
update_consul_lem_example =
    update_consul_lem one [] env 7 (some ring_of_two) running_one (λ e. ground arith)

-- the entry of the running instance, in which it has lost a token
abbrev one_instance : InstanceDesc
one_instance = record {
  addr = "a1";
  timestamp = 95;
  state = active;
  tokens = 1 ∷ [];
  zone = "z";
  registered_timestamp = pos 50;
}

abbrev ring_of_both : Desc
ring_of_both = record { ingesters = ("one", one_instance) ∷ ("two", two_instance) ∷ [] }

abbrev refilled : Lifecycler
refilled = record running_one { tokens = picked }

abbrev refilled_ring : Desc
refilled_ring = record {
  ingesters =
      ("one", record one_instance { timestamp = 100; tokens = picked })
      ∷ ("two", record two_instance { tokens = 4 ∷ 9 ∷ [] })
      ∷ [];
}

refills :
    verify_tokens_call one env (some ring_of_both) (running_one, false)
    ≡ some ((refilled, false), store refilled_ring)
unfolding verify_tokens_call lookup dskit.Base.Sort.ensure_sorted dskit.Ring.Desc.add_ingester
    dskit.Base.Maps.insert
refills = refl

verify_tokens_call_lem_example :
    StillOwned refilled (tokens_for ring_of_both "one").0 false (store refilled_ring)
    ⊎ Replaced one refilled
        (tokens_for ring_of_both "one").0
        (tokens_for ring_of_both "one").1
        false
        false
        (store refilled_ring)
verify_tokens_call_lem_example =
    verify_tokens_call_lem one env (some ring_of_both) running_one refilled false false
      (store refilled_ring) refills

claim_tokens_call_lem_example :
    (d' : Desc) × (claim_tokens_call one "two" env (some ring_of_both) []
      ≡ some (sort (tokens_at "two" ring_of_both), store d'))
    × (tokens_at "one" d' ≡ sort (tokens_at "two" ring_of_both))
    × ((instance_at "one" d'.ingesters).timestamp ≡ unix env)
    × (tokens_at "two" d' ≡ [])
    × ((id : String)
        → ("two" == id) ≡ false
        → ("one" == id) ≡ false
        → lookup id d'.ingesters ≡ lookup id ring_of_both.ingesters)
claim_tokens_call_lem_example = claim_tokens_call_lem one "two" env ring_of_both [] refl

abbrev two_checks : List ReadyCall
two_checks =
    (100_000_000_000, got (some ring_of_both)) ∷ (111_000_000_000, got (some ring_of_both)) ∷ []

becomes_ready : (check_all one two_checks running_one).ready ≡ true
unfolding check_all new_lifecycler lookup dskit.Ring.Desc.is_heartbeat_healthy
becomes_ready = refl

check_all-HeldLong_example : HeldLong one running_one two_checks
unfolding new_lifecycler
check_all-HeldLong_example = check_all-HeldLong one running_one two_checks refl refl becomes_ready

abbrev first_one : Lifecycler
first_one = new_lifecycler true true

abbrev crashed_ring : Desc
crashed_ring = record {
  ingesters = ("one", record one_instance { state = leaving; tokens = 7 ∷ 1 ∷ [] }) ∷ [];
}

abbrev adopted_one : Lifecycler
adopted_one = record first_one { state = active; tokens = picked; registered_at = pos 50 }

abbrev sorted_crashed : Desc
sorted_crashed = record {
  ingesters = ("one", record one_instance { state = leaving; tokens = picked }) ∷ [];
}

initialised :
    init_ring_call one [] env (some crashed_ring) (first_one, ring_of none)
    ≡ some ((adopted_one, sorted_crashed), keep_value)
unfolding init_ring_call lookup tokens_for get_registered_at dskit.Ring.Update.sort_in_place
    dskit.Base.Sort.ensure_sorted
initialised = refl

crashed_state : (instance_at "one" crashed_ring.ingesters).state ≡ leaving
unfolding lookup
crashed_state = refl

init_ring_call-Agrees_example :
    Agrees one adopted_one sorted_crashed × IsHeld (some crashed_ring) sorted_crashed keep_value
init_ring_call-Agrees_example =
    init_ring_call-Agrees one [] env (some crashed_ring) first_one adopted_one (ring_of none)
      sorted_crashed keep_value (omega arith) (unfold new_lifecycler in refl)
      (λ e. cc crashed_state) initialised

abbrev counted_one : Lifecycler
counted_one = record running_one { state = leaving; healthy_instances_count = 1; zones_count = 2 }

abbrev stopped_one : RingOutcome
stopped_one = record { lifecycler = counted_one; ring = some ring_of_two; no_error = true }

stopped : stopping one at_once 7 [] at_once (some ring_of_both) running_one ≡ some stopped_one
unfolding stopping new_lifecycler lookup dskit.Base.Maps.delete insert
    dskit.Ring.Operation.is_instance_in_state_healthy dskit.Ring.Desc.is_heartbeat_healthy
stopped = refl

stopping-unregistered_example : lookup "one" ring_of_two.ingesters ≡ none
unfolding new_lifecycler
stopping-unregistered_example =
    stopping-unregistered one at_once 7 [] at_once (some ring_of_both) running_one stopped_one
      stopped refl refl refl

abbrev in_loop_at : Lifecycler → Option Desc → World
in_loop_at l ring = record {
  lifecycler = l;
  ring = ring;
  join_timer = false;
  observing = false;
  in_loop = true;
}

abbrev leaving_ring : Desc
leaving_ring = record {
  ingesters =
      ("one", record one_instance { timestamp = 100; state = leaving })
      ∷ ("two", two_instance)
      ∷ [];
}

asked_to_leave :
    loop_step one (change_request leaving at_once 7) (in_loop_at running_one (some ring_of_both))
    ≡ some (in_loop_at counted_one (some leaving_ring))
unfolding loop_step lookup insert dskit.Ring.Operation.is_instance_in_state_healthy
    dskit.Ring.Desc.is_heartbeat_healthy
asked_to_leave = refl

loop_step-Follows_example : Follows active leaving
unfolding new_lifecycler
loop_step-Follows_example =
    loop_step-Follows one (change_request leaving at_once 7)
      (in_loop_at running_one (some ring_of_both)) (in_loop_at counted_one (some leaving_ring))
      asked_to_leave

-- LEAVING does not become ACTIVE again on request.
asked_to_return :
    loop_step one (change_request active at_once 7) (in_loop_at counted_one (some leaving_ring))
    ≡ some (in_loop_at counted_one (some leaving_ring))
unfolding loop_step
asked_to_return = refl

Reach-leaving_example : counted_one.state ≡ leaving
Reach-leaving_example =
    Reach-leaving one (in_loop_at counted_one (some leaving_ring))
      (in_loop_at counted_one (some leaving_ring))
      (next here (change_request active at_once 7) asked_to_return) refl
