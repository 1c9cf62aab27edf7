-- ===== src/Ring/BasicLifecycler/Delegates.antt =====
-- ring/basic_lifecycler_delegates.go: the three delegates, each round the next one.
use dskit.Base.{
  Bool, List, Option, String, [], if◌then◌else◌, length, ltb, nat_eq, none, some, string_eq, true,
  ℕ, ◌&&◌, ◌*◌, ◌-◌, ◌==◌, ◌||◌, ◌∷◌,
}
use dskit.Base.Int.{int_eq}
use dskit.Base.Maps.{Map}
use dskit.Ring.Types.{Desc, InstanceDesc, InstanceState, leaving}
use dskit.Ring.Desc.{remove_ingester}
use dskit.Ring.BasicLifecycler.{BasicConfig, Current, Delegate, current_registered_at}

-- `LeaveOnStoppingDelegate`
unfoldable pub leave_on_stopping : Delegate → Delegate
leave_on_stopping next = record next { on_stopping = leaving ∷ next.on_stopping }

-- `TokensPersistencyDelegate`, with the clock at registration and what LoadTokensFromFile returns
-- then, `none` for an error
pub record Persistency : Type 0 where
  pub tokens_path : String
  pub load_state : InstanceState
  pub loaded : Option (List ℕ)
  pub now : ℕ

unfoldable pub register_with_file :
    BasicConfig
    → Persistency
    → Delegate
    → Current
    → Desc
    → Bool
    → String
    → InstanceDesc
    → InstanceState × List ℕ
unfolding current_registered_at
register_with_file cfg p next current d exists id i =
    if p.tokens_path == "" || (exists && ltb 0 (length i.tokens))
    then next.on_register current d exists id i
    else elim p.loaded [
      | none ↦ next.on_register current d exists id i
      | some tokens ↦ next.on_register current d true cfg.id (record {
        addr = cfg.addr;
        timestamp = p.now;
        state = p.load_state;
        tokens = tokens;
        zone = cfg.zone;
        registered_timestamp = current_registered_at current;
      })
    ]

unfoldable pub tokens_persistency : BasicConfig → Persistency → Delegate → Delegate
unfolding register_with_file
tokens_persistency cfg p next = record next {
  on_register = register_with_file cfg p next;
  on_tokens = λ tokens.
      if p.tokens_path == ""
      then next.on_tokens tokens
      else (p.tokens_path, tokens) ∷ next.on_tokens tokens;
}

-- the test of the loop of `AutoForgetDelegate`
unfoldable pub is_forgotten : ℕ → ℕ → InstanceDesc → Bool
is_forgotten forget_period now_ns i = ltb forget_period (now_ns - i.timestamp * 1_000_000_000)

-- its loop, which removes instances from the map that it ranges over
unfoldable pub forget_loop : ℕ → ℕ → Map String InstanceDesc → Desc → Desc
unfolding is_forgotten remove_ingester
forget_loop forget_period now_ns [] d = d
forget_loop forget_period now_ns ((id, i) ∷ m) d =
    forget_loop forget_period now_ns m
      (if is_forgotten forget_period now_ns i then remove_ingester d id else d)

-- `AutoForgetDelegate`
unfoldable pub auto_forget : ℕ → Delegate → Delegate
unfolding forget_loop
auto_forget forget_period next = record next {
  on_heartbeat =
      λ now_ns d i. next.on_heartbeat now_ns (forget_loop forget_period now_ns d.ingesters d) i;
}
