-- ===== src/Memberlist/Store/Versions.antt =====
-- The versions of the store: what a merge does to them, and what CAS relies on.
use dskit.Base.{
  ==_iff, ==_refl, Bool, Bool-cases, List, Option, String, [], ap, arith, inl, inr, ltb, nat_eq,
  none, not, refl, some, string_eq, sym, ℕ, ◌%◌, ◌&&◌, ◌+◌, ◌-◌, ◌<◌, ◌==◌, ◌^◌, ◌∙◌, ◌∷◌, ◌≡◌, ◌≢◌,
  ◌⊎◌,
}
use dskit.Base.Maps.{lookup, lookup-insert}
use mathlib.Core.Option
use dskit.Memberlist.Interface.{Merged, merged, merge_failed, Mergeable}
use dskit.Memberlist.Store.{
  ValueDesc, Store, value_at, MergeOutcome, version_mismatch, merge_error, no_change, changed,
  CasError, Out, nothing, not_mergeable, new_value, Reply, succeeded, failed, cas_outcome,
  cas_merge, get, merged_in_place, store_change, unless_empty, keep_change, merge_result,
  merge_value_for_key, try_single_cas,
}

abbrev pub version_at : {V : Type 0} → String → Store V → ℕ
version_at key store = (value_at key store).version

-- What a merge may do to the store: the entries of other keys stay, and the version of the key grows
-- by one if and only if a change is returned, which then has the new version.
pub record IsVersioned {V : Type 0} (key : String) (store after : Store V)
    (outcome : MergeOutcome V) : Type 0 where
  pub others : (k : String) → k ≢ key → lookup k after ≡ lookup k store
  pub versions :
      ((version_at key after ≡ version_at key store)
        × ((change : V) (version : ℕ) → outcome ≢ changed change version))
      ⊎ ((change : V) × (outcome ≡ changed change (version_at key after))
          × (version_at key after ≡ (version_at key store + 1) % 2 ^ 64))

changed-version : {V : Type 0} {c d : V} {v u : ℕ} → changed c v ≡ changed d u → v ≡ u
changed-version e = ground arith

failed-ne-succeeded :
    {V : Type 0} {err : CasError} {retry : Bool} {c : V} {v : ℕ} → failed err retry ≢ succeeded c v
failed-ne-succeeded e = cc

module _ (M : Mergeable) (left_ingesters_timeout : ℕ) where
  open M use {Value, merge, merge_content, remove_tombstones}

  unchanged-IsVersioned :
      (key : String) (store : Store Value) (outcome : MergeOutcome Value)
      → ((change : Value) (version : ℕ) → outcome ≢ changed change version)
      → IsVersioned key store store outcome
  unchanged-IsVersioned key store outcome none_changed = record {
    others = λ k h. refl;
    versions = inl (refl, none_changed);
  }

  -- A merge in place keeps every version.
  in_place-IsVersioned :
      (key : String) (result : Value) (store : Store Value)
      → IsVersioned key store
          (merged_in_place M left_ingesters_timeout key (value_at key store) result store)
          no_change
  unfolding merged_in_place
  in_place-IsVersioned key result store =
      let own = lookup-insert key key (record (value_at key store) { value = some result }) store in
      record {
        others = λ k h. ground (
          arith,
          ==_iff key k,
          lookup-insert key k (record (value_at key store) { value = some result }) store,
        );
        versions = inl (ground (arith, ==_refl key, own), λ change version. cc);
      }

  store_change-IsVersioned :
      (key codec_id : String) (result change : Value) (store : Store Value)
      → let (outcome, after) =
          store_change M left_ingesters_timeout key
            (value_at key store)
            codec_id
            result
            change
            store in
        IsVersioned key store after outcome
  unfolding store_change
  store_change-IsVersioned key codec_id result change store =
      let new_version = ((value_at key store).version + 1) % 2 ^ 64 in
      let stored : ValueDesc Value = record {
        value = some result;
        version = new_version;
        codec_id = codec_id;
      } in
      let own = lookup-insert key key stored store in
      record {
        others = λ k h. ground (arith, ==_iff key k, lookup-insert key k stored store);
        versions = inr (change, ground (arith, ==_refl key, own), ground (arith, ==_refl key, own));
      }

  unless_empty-IsVersioned :
      (change : Value) (key : String) (result : Value) (go_on : MergeOutcome Value × Store Value)
      (store : Store Value)
      → IsVersioned key store go_on.1 go_on.0
      → let (outcome, after) =
          unless_empty M left_ingesters_timeout change key
            (value_at key store)
            result
            go_on
            store in
        IsVersioned key store after outcome
  unfolding unless_empty
  unless_empty-IsVersioned change key result go_on store h =
      let in_place = in_place-IsVersioned key result store in
      elim (merge_content change)
        as (λ (content : List String).
          let r : MergeOutcome Value × Store Value = elim content [
            | [] ↦ (
              no_change,
              merged_in_place M left_ingesters_timeout key (value_at key store) result store,
            )
            | _ ∷ _ ↦ go_on
          ] in
          IsVersioned key store r.1 r.0) [ [] ↦ in_place | _ ∷ _ ↦ h ]

  keep_change-IsVersioned :
      (key codec_id : String) (now_ns : ℕ) (result change : Value) (store : Store Value)
      → let (outcome, after) =
          keep_change M left_ingesters_timeout key
            (value_at key store)
            codec_id
            now_ns
            result
            change
            store in
        IsVersioned key store after outcome
  unfolding keep_change
  keep_change-IsVersioned key codec_id now_ns result change store =
      let limit = some (now_ns - left_ingesters_timeout) in
      let kept = remove_tombstones limit result in
      let kept_change = remove_tombstones limit change in
      unless_empty-IsVersioned change key result _ store
        (elim (Bool-cases (ltb 0 left_ingesters_timeout)) [
          | inl on ↦ rw on (
              unless_empty-IsVersioned kept_change key kept _ store
                (store_change-IsVersioned key codec_id kept kept_change store))
          | inr off ↦ rw off (store_change-IsVersioned key codec_id result change store)
        ])

  merged-IsVersioned :
      (now_ns : ℕ) (key codec_id : String) (store : Store Value) (r : Merged Value)
      → let (outcome, after) = merge_result M left_ingesters_timeout now_ns key codec_id r store in
        IsVersioned key store after outcome
  unfolding merge_result
  merged-IsVersioned now_ns key codec_id store merge_failed =
      unchanged-IsVersioned key store merge_error (λ change version. cc)
  merged-IsVersioned now_ns key codec_id store (merged result none) =
      in_place-IsVersioned key result store
  merged-IsVersioned now_ns key codec_id store (merged result (some change)) =
      keep_change-IsVersioned key codec_id now_ns result change store

  -- A merge of a value into the store, whatever the versions and values are, leaves the entries of
  -- other keys as they are. The version of the key stays and no change is returned, or the version
  -- grows by one, modulo 2^64, and is returned with a change.
  pub merge_value_for_key-IsVersioned :
      (now_ns : ℕ) (key : String) (incoming : Value) (cas_version : ℕ) (codec_id : String)
      (store : Store Value)
      → let (outcome, after) =
          merge_value_for_key M left_ingesters_timeout now_ns key incoming cas_version codec_id
            store in
        IsVersioned key store after outcome
  unfolding merge_value_for_key
  merge_value_for_key-IsVersioned now_ns key incoming cas_version codec_id store =
      elim (Bool-cases (ltb 0 cas_version && not (version_at key store == cas_version))) [
        | inl stale ↦
            rw stale (unchanged-IsVersioned key store version_mismatch (λ change version. cc))
        | inr fresh ↦ rw fresh (merged-IsVersioned now_ns key codec_id store _)
      ]

  -- A CAS merge that returns a change found the version that it was given.
  cas_version-eq :
      (now_ns : ℕ) (key : String) (incoming : Value) (cas_version : ℕ) (codec_id : String)
      (store : Store Value) {change : Value} {version : ℕ}
      → 0 < cas_version
      → (merge_value_for_key M left_ingesters_timeout now_ns key incoming cas_version codec_id
          store).0
        ≡ changed change version
      → version_at key store ≡ cas_version
  unfolding merge_value_for_key
  cas_version-eq now_ns key incoming cas_version codec_id store h e =
      elim (Bool-cases (ltb 0 cas_version && not (version_at key store == cas_version))) [
        | inl stale ↦ ground arith
        | inr fresh ↦ ground arith
      ]

  cas_outcome-succeeded :
      (retry : Bool) (outcome : MergeOutcome Value) {change : Value} {version : ℕ}
      → cas_outcome M left_ingesters_timeout retry outcome ≡ succeeded change version
      → outcome ≡ changed change version
  unfolding cas_outcome
  cas_outcome-succeeded retry version_mismatch e = cc
  cas_outcome-succeeded retry merge_error e = cc
  cas_outcome-succeeded retry no_change e = cc
  cas_outcome-succeeded retry (changed change version) e = ground arith

  cas_merge-succeeded :
      (now_ns : ℕ) (key codec_id : String) (ver : ℕ) (retry : Bool) (out : Out Value)
      (store : Store Value) {change : Value} {version : ℕ}
      → 0 < ver
      → (cas_merge M left_ingesters_timeout now_ns key codec_id ver retry out store).0
        ≡ succeeded change version
      → (version_at key store ≡ ver)
        × (version ≡ (ver + 1) % 2 ^ 64)
        × (version_at key
              (cas_merge M left_ingesters_timeout now_ns key codec_id ver retry out store).1
            ≡ version)
  unfolding cas_merge
  cas_merge-succeeded now_ns key codec_id ver retry nothing store read e = cc
  cas_merge-succeeded now_ns key codec_id ver retry not_mergeable store read e = cc
  cas_merge-succeeded now_ns key codec_id ver retry (new_value r) store {change} {version} read e =
      let is_changed = cas_outcome-succeeded retry _ e in
      let same = cas_version-eq now_ns key r ver codec_id store read is_changed in
      elim (merge_value_for_key-IsVersioned now_ns key r ver codec_id store).versions [
        | inl (_, unchanged) ↦ absurd (unchanged change version is_changed)
        | inr (change', is_new, next) ↦
            let stored : version ≡ _ = changed-version (sym is_changed ∙ is_new) in
            (same, stored ∙ next ∙ ap (λ v. (v + 1) % 2 ^ 64) same, sym stored)
      ]

  -- An attempt of a CAS that succeeds on a key that had a version was not overtaken: what other
  -- goroutines did while its function ran left the version as it was read, and its own version, which
  -- the store now has, is the next one.
  pub try_single_cas-succeeded :
      (now_ns : ℕ) (key codec_id : String) (f : Option Value → Reply Value)
      (others : Store Value → Store Value) (store : Store Value) {change : Value} {version : ℕ}
      → 0 < version_at key store
      → let (result, after) =
          try_single_cas M left_ingesters_timeout now_ns key codec_id f others store in
        result ≡ succeeded change version
        → (version_at key (others store) ≡ version_at key store)
          × (version ≡ (version_at key store + 1) % 2 ^ 64)
          × (version_at key after ≡ version)
  unfolding try_single_cas get
  try_single_cas-succeeded now_ns key codec_id f others store {change} {version} read e =
      let val = Option.map (remove_tombstones none) (value_at key store).value in
      let reply = f val in
      elim (Bool-cases reply.err) [
        | inl failing ↦ absurd (failed-ne-succeeded (rw failing at e))
        | inr fine ↦ rw fine (
            cas_merge-succeeded now_ns key codec_id (version_at key store) reply.retry reply.out
              (others store) read (rw fine at e))
      ]
