-- ===== src/ToolLedger/Evict.antt =====
-- What `_evict` can remove from a store.
use durallm.Common.{
  ℕ, zero, suc, ◌-◌, ◌≤◌, ◌<◌, ◌≡◌, refl, false, Option, none, some, String, [], ◌∷◌, ◌++◌, length,
  drop, string_eq, eq_iff, arith, Bool-cases, inl, inr, Option-cases, length-drop, length-append,
}
use durallm.Common.Dict
use durallm.Common.Dict.{Dict}
use durallm.ToolLedger.{expired, evict_expired, evict_store}

module _ {V : Type 0} (stamp : V → ℕ) (ttl : Option ℕ) (now : ℕ) where
  -- An entry that is not expired survives the first loop.
  lookup-evict_expired :
      (k : String) (v : V) (d : Dict String V)
      → Dict.lookup k d ≡ some v
      → expired ttl now (stamp v) ≡ false
      → Dict.lookup k (evict_expired stamp ttl now d) ≡ some v
  unfolding evict_expired Dict.lookup
  lookup-evict_expired k v [] h fresh = cc
  lookup-evict_expired k v ((j, w) ∷ d) h fresh = elim (Bool-cases (expired ttl now (stamp w))) [
    | inl old ↦ rw old (lookup-evict_expired k v d (ground arith) fresh)
    | inr young ↦ rw young h
  ]

  evict_expired-append :
      (k : String) (v : V) (d : Dict String V)
      → expired ttl now (stamp v) ≡ false
      → evict_expired stamp ttl now (d ++ (k, v) ∷ [])
        ≡ evict_expired stamp ttl now d ++ (k, v) ∷ []
  unfolding evict_expired
  evict_expired-append k v [] fresh = rw fresh
  evict_expired-append k v ((j, w) ∷ d) fresh = elim (Bool-cases (expired ttl now (stamp w))) [
    | inl old ↦ rw old (evict_expired-append k v d fresh)
    | inr young ↦ rw young
  ]

  length-evict_expired : (d : Dict String V) → length (evict_expired stamp ttl now d) ≤ length d
  unfolding evict_expired
  length-evict_expired [] = omega arith
  length-evict_expired ((j, w) ∷ d) = ground (arith, length-evict_expired d)

-- An absent key is appended.
insert-append :
    {V : Type 0} (k : String) (v : V) (d : Dict String V)
    → Dict.lookup k d ≡ none
    → Dict.insert k v d ≡ d ++ (k, v) ∷ []
unfolding Dict.insert Dict.lookup
insert-append k v [] h = refl
insert-append k v ((j, w) ∷ d) h = ground (arith, insert-append k v d)

pub length-insert_present :
    {V : Type 0} (k : String) (v w : V) (d : Dict String V)
    → Dict.lookup k d ≡ some w
    → length (Dict.insert k v d) ≡ length d
unfolding Dict.insert Dict.lookup
length-insert_present k v w [] h = cc
length-insert_present k v w ((j, u) ∷ d) h = ground (arith, length-insert_present k v w d)

lookup-drop-append :
    {V : Type 0} (n : ℕ) (k : String) (v : V) (d : Dict String V)
    → n ≤ length d
    → Dict.lookup k d ≡ none
    → Dict.lookup k (drop n (d ++ (k, v) ∷ [])) ≡ some v
unfolding Dict.lookup
lookup-drop-append zero k v [] h absent = ground (arith, eq_iff k k)
lookup-drop-append zero k v ((j, w) ∷ d) h absent =
    ground (arith, eq_iff k k, lookup-drop-append 0 k v d)
lookup-drop-append (suc n) k v [] h absent = absurd (omega arith)
lookup-drop-append (suc n) k v ((j, w) ∷ d) h absent =
    lookup-drop-append n k v d (omega arith) (ground arith)

lookup-evict_expired-none :
    {V : Type 0} (stamp : V → ℕ) (ttl : Option ℕ) (now : ℕ) (k : String) (d : Dict String V)
    → Dict.lookup k d ≡ none
    → Dict.lookup k (evict_expired stamp ttl now d) ≡ none
unfolding evict_expired Dict.lookup
lookup-evict_expired-none stamp ttl now k [] h = refl
lookup-evict_expired-none stamp ttl now k ((j, w) ∷ d) h =
    ground (arith, lookup-evict_expired-none stamp ttl now k d)

-- What was just stored under a key survives `_evict`, if it is not expired, the store was within
-- its bound and the bound is not 0.
pub lookup-evict-insert :
    {V : Type 0} (stamp : V → ℕ) (ttl : Option ℕ) (max_records now : ℕ) (k : String) (v : V)
    (d : Dict String V)
    → length d ≤ max_records
    → 0 < max_records
    → expired ttl now (stamp v) ≡ false
    → Dict.lookup k (evict_store stamp ttl max_records now (Dict.insert k v d)) ≡ some v
unfolding evict_store
lookup-evict-insert stamp ttl max_records now k v d fits pos fresh =
    elim (Option-cases (Dict.lookup k d)) [
      | inl absent ↦
          let kept = evict_expired stamp ttl now d in
          rw (insert-append k v d absent) (
            rw (evict_expired-append stamp ttl now k v d fresh) (
              lookup-drop-append (length (kept ++ (k, v) ∷ []) - max_records) k v kept
                (omega
                  (arith, length-append kept ((k, v) ∷ []), length-evict_expired stamp ttl now d))
                (lookup-evict_expired-none stamp ttl now k d absent)))
      | inr (w, present) ↦
          let kept = evict_expired stamp ttl now (Dict.insert k v d) in
          let e : length kept - max_records ≡ 0 = omega (
            arith,
            length-insert_present k v w d present,
            length-evict_expired stamp ttl now (Dict.insert k v d),
          ) in
          rw e (
            lookup-evict_expired stamp ttl now k v (Dict.insert k v d)
              (Dict.lookup-insert_self k v d) fresh)
    ]

pub length-evict_store :
    {V : Type 0} (stamp : V → ℕ) (ttl : Option ℕ) (max_records now : ℕ) (d : Dict String V)
    → length (evict_store stamp ttl max_records now d) ≤ max_records
unfolding evict_store
length-evict_store stamp ttl max_records now d =
    let kept = evict_expired stamp ttl now d in
    omega (arith, length-drop (length kept - max_records) kept)

-- In a store within its bound an entry that is not expired survives `_evict`.
pub lookup-evict_store :
    {V : Type 0} (stamp : V → ℕ) (ttl : Option ℕ) (max_records now : ℕ) (k : String) (v : V)
    (d : Dict String V)
    → length d ≤ max_records
    → Dict.lookup k d ≡ some v
    → expired ttl now (stamp v) ≡ false
    → Dict.lookup k (evict_store stamp ttl max_records now d) ≡ some v
unfolding evict_store
lookup-evict_store stamp ttl max_records now k v d fits found fresh =
    let kept = evict_expired stamp ttl now d in
    let e : length kept - max_records ≡ 0 = omega (arith, length-evict_expired stamp ttl now d) in
    rw e (lookup-evict_expired stamp ttl now k v d found fresh)
