-- ===== src/Memberlist/Store.antt =====
-- kv/memberlist/memberlist_client.go: the store of `KV`, its reads, its merges and CAS.
use dskit.Base.{
  Bool, List, Option, String, [], if◌then◌else◌, ltb, map, nat_eq, none, not, some, starts_with,
  string_eq, ℕ, ◌%◌, ◌&&◌, ◌+◌, ◌-◌, ◌/◌, ◌==◌, ◌^◌, ◌∷◌,
}
use dskit.Base.Maps.{Map, insert, lookup}
pub mod Versions
use mathlib.Core.Option
use dskit.Memberlist.Interface.{Merged, merged, merge_failed, Mergeable}

-- `valueDesc`
pub record ValueDesc (V : Type 0) : Type 0 where
  pub value : Option V
  pub version : ℕ
  pub codec_id : String

abbrev pub Store : Type 0 → Type 0
Store V = Map String (ValueDesc V)

-- `m.store[key]`, the zero value for a key that is missing
abbrev pub value_at : {V : Type 0} → String → Store V → ValueDesc V
value_at key store = elim (lookup key store) [
  | none ↦ record { value = none; version = 0; codec_id = "" }
  | some v ↦ v
]

-- `List`
unfoldable pub list_keys : {V : Type 0} → String → Store V → List String
list_keys prefix [] = []
list_keys prefix ((key, v) ∷ rest) =
    let keys = list_keys prefix rest in if starts_with key prefix then key ∷ keys else keys

-- What `mergeValueForKey` returns: `errVersionMismatch`, the error of Merge, no change (nil, and
-- version 0), or the change and the new version.
pub data MergeOutcome (V : Type 0) : Type 0 where
  version_mismatch merge_error no_change : MergeOutcome V
  changed : (change : V) (version : ℕ) → MergeOutcome V

-- The errors of a call of CAS.
pub data CasError : Type 0 where
  fn_error invalid_type mismatch failed_merge no_change_detected too_many_retries context_done :
      CasError

-- What the function of a CAS returns: `out` may be nil or of a type that is not Mergeable.
pub data Out (V : Type 0) : Type 0 where
  nothing not_mergeable : Out V
  new_value : V → Out V

pub record Reply (V : Type 0) : Type 0 where
  pub out : Out V
  pub retry : Bool
  pub err : Bool

-- What one attempt leads to.
pub data Attempt (V : Type 0) : Type 0 where
  not_needed : Attempt V
  succeeded : (change : V) (version : ℕ) → Attempt V
  failed : (err : CasError) (retry : Bool) → Attempt V

module _ (M : Mergeable) (left_ingesters_timeout : ℕ) where
  open M use {Value, merge, merge_content, remove_tombstones}

  -- `get`: the value without its tombstones, and its version
  unfoldable pub get : String → Store Value → Option Value × ℕ
  get key store =
      let v = value_at key store in (Option.map (remove_tombstones none) v.value, v.version)

  -- `computeNewValue`
  unfoldable pub compute_new_value : Value → Option Value → Bool → ℕ → Merged Value
  compute_new_value incoming none cas now = merged incoming (some incoming)
  compute_new_value incoming (some old) cas now = merge old incoming cas now

  -- The value of a key is merged in place, so that it changes even if nothing is stored after.
  unfoldable pub merged_in_place : String → ValueDesc Value → Value → Store Value → Store Value
  merged_in_place key curr result store = elim curr.value [
    | none ↦ store
    | some _ ↦ insert key (record curr { value = some result }) store
  ]

  -- the end of `mergeValueForKey`: the new version is stored
  unfoldable pub store_change :
      String
      → ValueDesc Value
      → String
      → Value
      → Value
      → Store Value
      → MergeOutcome Value × Store Value
  store_change key curr codec_id result change store =
      let new_version = (curr.version + 1) % 2 ^ 64 in
      (
        changed change new_version,
        insert key (record { value = some result; version = new_version; codec_id = codec_id })
            store,
      )

  -- the test for an empty change, of which `mergeValueForKey` has two
  unfoldable pub unless_empty :
      Value
      → String
      → ValueDesc Value
      → Value
      → MergeOutcome Value × Store Value
      → Store Value
      → MergeOutcome Value × Store Value
  unfolding merged_in_place
  unless_empty change key curr result go_on store = elim (merge_content change) [
    | [] ↦ (no_change, merged_in_place key curr result store)
    | _ ∷ _ ↦ go_on
  ]

  -- `mergeValueForKey` once the values are merged to `result`, with a change
  unfoldable pub keep_change :
      String
      → ValueDesc Value
      → String
      → ℕ
      → Value
      → Value
      → Store Value
      → MergeOutcome Value × Store Value
  unfolding unless_empty store_change
  keep_change key curr codec_id now_ns result change store =
      let limit = some (now_ns - left_ingesters_timeout) in
      let kept = remove_tombstones limit result in
      let kept_change = remove_tombstones limit change in
      let stored =
        if ltb 0 left_ingesters_timeout
        then (let stored_kept = store_change key curr codec_id kept kept_change store in
            unless_empty kept_change key curr kept stored_kept store)
        else store_change key curr codec_id result change store in
      unless_empty change key curr result stored store

  -- `mergeValueForKey` with what `computeNewValue` returned
  unfoldable pub merge_result :
      ℕ → String → String → Merged Value → Store Value → MergeOutcome Value × Store Value
  unfolding merged_in_place keep_change
  merge_result now_ns key codec_id merge_failed store = (merge_error, store)
  merge_result now_ns key codec_id (merged result none) store =
      (no_change, merged_in_place key (value_at key store) result store)
  merge_result now_ns key codec_id (merged result (some change)) store =
      keep_change key (value_at key store) codec_id now_ns result change store

  -- `mergeValueForKey`; the clock is in nanoseconds
  unfoldable pub merge_value_for_key :
      ℕ → String → Value → ℕ → String → Store Value → MergeOutcome Value × Store Value
  unfolding compute_new_value merge_result
  merge_value_for_key now_ns key incoming cas_version codec_id store =
      let curr = value_at key store in
      if ltb 0 cas_version && not (curr.version == cas_version)
      then (version_mismatch, store)
      else merge_result now_ns key codec_id
          (compute_new_value incoming curr.value (ltb 0 cas_version) (now_ns / 1_000_000_000)) store

  -- the end of `trySingleCas`; `mergeValueForKey` reports no change by the version 0
  unfoldable pub cas_outcome : Bool → MergeOutcome Value → Attempt Value
  cas_outcome retry version_mismatch = failed mismatch retry
  cas_outcome retry merge_error = failed failed_merge retry
  cas_outcome retry no_change = failed no_change_detected retry
  cas_outcome retry (changed change version) =
      if version == 0 then failed no_change_detected retry else succeeded change version

  -- `trySingleCas` once its function returned without an error
  unfoldable pub cas_merge :
      ℕ → String → String → ℕ → Bool → Out Value → Store Value → Attempt Value × Store Value
  unfolding merge_value_for_key cas_outcome
  cas_merge now_ns key codec_id ver retry nothing store = (not_needed, store)
  cas_merge now_ns key codec_id ver retry not_mergeable store = (failed invalid_type retry, store)
  cas_merge now_ns key codec_id ver retry (new_value r) store =
      let (outcome, after) = merge_value_for_key now_ns key r ver codec_id store in
      (cas_outcome retry outcome, after)

  -- `trySingleCas`, where `others` is what other goroutines do to the store between the read and the
  -- merge, while the function runs
  unfoldable pub try_single_cas :
      ℕ
      → String
      → String
      → (Option Value → Reply Value)
      → (Store Value → Store Value)
      → Store Value
      → Attempt Value × Store Value
  unfolding get cas_merge
  try_single_cas now_ns key codec_id f others store =
      let (val, ver) = get key store in
      let reply = f val in
      let store' = others store in
      if reply.err
      then (failed fn_error reply.retry, store')
      else cas_merge now_ns key codec_id ver reply.retry reply.out store'
