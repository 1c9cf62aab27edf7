-- ===== src/Memberlist/Watchers.antt =====
-- kv/memberlist/memberlist_client.go: the watchers of keys and of prefixes, and their notifications.
use dskit.Base.{
  ==_iff, ==_refl, All, Bool-cases, List, String, [], ap, arith, contains, false, if◌then◌else◌,
  inl, inr, length, ltb, map, nat_eq, none, refl, some, starts_with, string_eq, subst, sym, true, ℕ,
  ◌++◌, ◌==◌, ◌∙◌, ◌∷◌, ◌≡◌, ◌≢◌, ◌≤◌, ◌⊎◌,
}
use dskit.Base.Maps.{Map, delete, insert, lookup, lookup-delete, lookup-insert}

-- A channel of strings with a buffer: its identity, and what is in it. A key's watcher has a buffer
-- of one notification, a prefix's watcher of 16.
pub record Watcher : Type 0 where
  pub id : ℕ
  pub pending : List String

abbrev pub Watchers : Type 0
Watchers = Map String (List Watcher)

-- `watchers[k]`, nil for a key that is missing
unfoldable pub watchers_of : String → Watchers → List Watcher
watchers_of k watchers = elim (lookup k watchers) [ none ↦ [] | some ws ↦ ws ]

-- the registration at the start of `WatchKey` and of `WatchPrefix`
unfoldable pub add_watcher : String → ℕ → Watchers → Watchers
unfolding watchers_of
add_watcher k id watchers =
    insert k (watchers_of k watchers ++ record { id = id; pending = [] } ∷ []) watchers

-- the loop of `removeWatcherChannel`
unfoldable pub remove_first : ℕ → List Watcher → List Watcher
remove_first id [] = []
remove_first id (w ∷ ws) = let rest = remove_first id ws in if w.id == id then ws else w ∷ rest

unfoldable pub set_or_delete : String → List Watcher → Watchers → Watchers
set_or_delete k [] watchers = delete k watchers
set_or_delete k (w ∷ ws) watchers = insert k (w ∷ ws) watchers

-- `removeWatcherChannel`
unfoldable pub remove_watcher_channel : String → ℕ → Watchers → Watchers
unfolding watchers_of remove_first set_or_delete
remove_watcher_channel k id watchers =
    set_or_delete k (remove_first id (watchers_of k watchers)) watchers

-- A send that does not block: into a buffer that is not full, or not at all.
unfoldable pub offer : ℕ → String → Watcher → Watcher
offer capacity key w =
    if ltb (length w.pending) capacity then record w { pending = w.pending ++ key ∷ [] } else w

-- the first loop of `notifyWatchers`
unfoldable pub notify_key : String → Watchers → Watchers
unfolding offer
notify_key key [] = []
notify_key key ((k, ws) ∷ rest) =
    let others = notify_key key rest in (k, if k == key then map (offer 1 key) ws else ws) ∷ others

-- the second loop
unfoldable pub notify_prefixes : String → Watchers → Watchers
unfolding offer
notify_prefixes key [] = []
notify_prefixes key ((p, ws) ∷ rest) =
    let others = notify_prefixes key rest in
    (p, if starts_with key p then map (offer 16 key) ws else ws) ∷ others

watchers_of-insert :
    (k j : String) (ws : List Watcher) (watchers : Watchers)
    → watchers_of j (insert k ws watchers) ≡ (if k == j then ws else watchers_of j watchers)
unfolding watchers_of
watchers_of-insert k j ws watchers = ground (arith, lookup-insert k j ws watchers)

watchers_of-set_or_delete :
    (k j : String) (ws : List Watcher) (watchers : Watchers)
    → watchers_of j (set_or_delete k ws watchers) ≡ (if k == j then ws else watchers_of j watchers)
unfolding set_or_delete watchers_of
watchers_of-set_or_delete k j [] watchers = ground (arith, lookup-delete k j watchers)
watchers_of-set_or_delete k j (w ∷ ws) watchers = watchers_of-insert k j (w ∷ ws) watchers

-- No watcher has the channel.
abbrev pub IsFresh : ℕ → List Watcher → Type 0
IsFresh id ws = All (λ w. w.id ≢ id) ws

remove_first-added :
    (id : ℕ) (ws : List Watcher) (added : Watcher)
    → added.id ≡ id
    → IsFresh id ws
    → remove_first id (ws ++ added ∷ []) ≡ ws
unfolding remove_first
remove_first-added id [] added e fresh = ground arith
remove_first-added id (w ∷ ws) added e fresh =
    ground (arith, remove_first-added id ws added e fresh.1)

-- Watching a key or a prefix and ending it leaves the watchers of every key as they were, if no
-- watcher of the key had the channel before.
pub remove_watcher_channel-add_watcher :
    (k : String) (id : ℕ) (watchers : Watchers)
    → IsFresh id (watchers_of k watchers)
    → (j : String)
    → watchers_of j (remove_watcher_channel k id (add_watcher k id watchers))
      ≡ watchers_of j watchers
unfolding remove_watcher_channel add_watcher
remove_watcher_channel-add_watcher k id watchers fresh j =
    let added : Watcher = record { id = id; pending = [] } in
    let all = watchers_of k watchers ++ added ∷ [] in
    let own : watchers_of k (insert k all watchers) ≡ all =
      watchers_of-insert k k all watchers ∙ rw (==_refl k) in
    let left =
      ap (remove_first id) own ∙ remove_first-added id (watchers_of k watchers) added refl fresh in
    watchers_of-set_or_delete k j _ (insert k all watchers)
    ∙ ground (arith, left, ==_iff k j, watchers_of-insert k j all watchers)

-- What a watcher is left with: something pending if it had room for one, the key itself if it had
-- room.
abbrev pub Wakes : ℕ → String → Watcher → Type 0
Wakes capacity key w = (contains w.pending key ≡ true) ⊎ (capacity ≤ length w.pending)

contains-added : (key : String) (xs : List String) → contains (xs ++ key ∷ []) key ≡ true
contains-added key [] = rw (==_refl key)
contains-added key (x ∷ xs) = ground (arith, contains-added key xs)

offer-Wakes :
    (capacity : ℕ) (key : String) (w : Watcher) → Wakes capacity key (offer capacity key w)
unfolding offer
offer-Wakes capacity key w = elim (Bool-cases (ltb (length w.pending) capacity)) [
  | inl room ↦ rw room (inl (contains-added key w.pending))
  | inr full ↦ rw full (inr (ground arith))
]

map-offer-Wakes :
    (capacity : ℕ) (key : String) (ws : List Watcher)
    → All (Wakes capacity key) (map (offer capacity key) ws)
map-offer-Wakes capacity key [] = tt
map-offer-Wakes capacity key (w ∷ ws) =
    (offer-Wakes capacity key w, map-offer-Wakes capacity key ws)

watchers_of-notify_key :
    (key j : String) (watchers : Watchers)
    → watchers_of j (notify_key key watchers)
      ≡ (if j == key then map (offer 1 key) (watchers_of j watchers) else watchers_of j watchers)
unfolding watchers_of notify_key lookup
watchers_of-notify_key key j [] = ground arith
watchers_of-notify_key key j ((k, ws) ∷ rest) =
    ground (arith, ==_iff k j, ==_iff k key, ==_iff j key, watchers_of-notify_key key j rest)

watchers_of-notify_prefixes :
    (key p : String) (watchers : Watchers)
    → watchers_of p (notify_prefixes key watchers) ≡ (
        if starts_with key p
        then map (offer 16 key) (watchers_of p watchers)
        else watchers_of p watchers)
unfolding watchers_of notify_prefixes lookup
watchers_of-notify_prefixes key p [] = ground arith
watchers_of-notify_prefixes key p ((k, ws) ∷ rest) =
    ground (arith, ==_iff k p, watchers_of-notify_prefixes key p rest)

-- A change of a key reaches each watcher of the key and each watcher of a prefix of it: the watcher
-- has the key among its pending notifications, or has a buffer that is full, of one notification
-- for a key and of 16 for a prefix. The watchers of other keys, and those of prefixes that the key
-- does not start with, stay as they are.
pub notify_watchers_lem :
    (key : String) (watchers prefix_watchers : Watchers)
    → All (Wakes 1 key) (watchers_of key (notify_key key watchers))
      × ((p : String)
          → starts_with key p ≡ true
          → All (Wakes 16 key) (watchers_of p (notify_prefixes key prefix_watchers)))
      × ((j : String) → j ≢ key → watchers_of j (notify_key key watchers) ≡ watchers_of j watchers)
      × ((p : String)
          → starts_with key p ≡ false
          → watchers_of p (notify_prefixes key prefix_watchers) ≡ watchers_of p prefix_watchers)
notify_watchers_lem key watchers prefix_watchers = (
  subst (All (Wakes 1 key)) (sym (watchers_of-notify_key key key watchers ∙ rw (==_refl key)))
      (map-offer-Wakes 1 key (watchers_of key watchers)),
  λ p h.
      subst (All (Wakes 16 key)) (sym (watchers_of-notify_prefixes key p prefix_watchers ∙ rw h))
        (map-offer-Wakes 16 key (watchers_of p prefix_watchers)),
  λ j other. ground (arith, watchers_of-notify_key key j watchers, ==_iff j key),
  λ p h. ground (arith, watchers_of-notify_prefixes key p prefix_watchers),
)
