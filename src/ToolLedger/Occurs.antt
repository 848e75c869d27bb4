-- ===== src/ToolLedger/Occurs.antt =====
-- Entries of a store, wherever they stand, through `insert` and `_evict`.
use durallm.Common.{
  ℕ, zero, suc, ◌-◌, ◌≡◌, sym, ◌∙◌, ◌⊎◌, inl, inr, Option, some, String, List, [], ◌∷◌, ◌++◌,
  length, drop, ◌==◌, string_eq, eq_iff, arith, Bool-cases,
}
use durallm.Common.Dict
use durallm.Common.Dict.{Dict}
use durallm.ToolLedger.{expired, evict_expired, evict_store}

-- The entry stands somewhere in the list.
abbrev pub Occurs : {V : Type 0} → String → V → List (String × V) → Type 0
Occurs k v [] = ⊥
Occurs k v ((j, w) ∷ d) = ((j ≡ k) × (w ≡ v)) ⊎ Occurs k v d

module _ {V : Type 0} where
  pub Occurs-append :
      (k : String) (v : V) (xs ys : List (String × V))
      → Occurs k v xs ⊎ Occurs k v ys
      → Occurs k v (xs ++ ys)
  Occurs-append k v [] ys (inl h) = absurd h
  Occurs-append k v [] ys (inr h) = h
  Occurs-append k v (x ∷ xs) ys (inl (inl h)) = inl h
  Occurs-append k v (x ∷ xs) ys (inl (inr h)) = inr (Occurs-append k v xs ys (inl h))
  Occurs-append k v (x ∷ xs) ys (inr h) = inr (Occurs-append k v xs ys (inr h))

  pub Occurs-lookup :
      (k : String) (v : V) (d : Dict String V) → Dict.lookup k d ≡ some v → Occurs k v d
  unfolding Dict.lookup
  Occurs-lookup k v [] h = cc
  Occurs-lookup k v ((j, w) ∷ d) h = elim (Bool-cases (j == k)) [
    | inl e ↦ inl ((eq_iff j k).0 e, ground arith)
    | inr e ↦ inr (Occurs-lookup k v d (ground arith))
  ]

  pub Occurs-insert :
      (k j : String) (v w : V) (d : Dict String V)
      → Occurs k v (Dict.insert j w d)
      → Occurs k v d ⊎ ((j ≡ k) × (w ≡ v))
  unfolding Dict.insert
  Occurs-insert k j v w [] (inl h) = inr h
  Occurs-insert k j v w [] (inr h) = absurd h
  Occurs-insert k j v w ((i, u) ∷ d) h = elim (Bool-cases (i == j)) [
    | inl p ↦
        let h' : ((i ≡ k) × (w ≡ v)) ⊎ Occurs k v d = rw p at h in
        elim h' [ inl e ↦ inr (sym ((eq_iff i j).0 p) ∙ e.0, e.1) | inr o ↦ inl (inr o) ]
    | inr p ↦
        let h' : ((i ≡ k) × (u ≡ v)) ⊎ Occurs k v (Dict.insert j w d) = rw p at h in
        elim h' [
          | inl e ↦ inl (inl e)
          | inr o ↦ elim (Occurs-insert k j v w d o) [ inl o' ↦ inl (inr o') | inr e ↦ inr e ]
        ]
  ]

  pub Occurs-drop :
      (k : String) (v : V) (n : ℕ) (d : Dict String V) → Occurs k v (drop n d) → Occurs k v d
  Occurs-drop k v zero d h = h
  Occurs-drop k v (suc n) [] h = h
  Occurs-drop k v (suc n) (x ∷ d) h = inr (Occurs-drop k v n d h)

  pub Occurs-evict_expired :
      (stamp : V → ℕ) (ttl : Option ℕ) (now : ℕ) (k : String) (v : V) (d : Dict String V)
      → Occurs k v (evict_expired stamp ttl now d)
      → Occurs k v d
  unfolding evict_expired
  Occurs-evict_expired stamp ttl now k v [] h = h
  Occurs-evict_expired stamp ttl now k v ((j, w) ∷ d) h =
      elim (Bool-cases (expired ttl now (stamp w))) [
        | inl p ↦
            let h' : Occurs k v (evict_expired stamp ttl now d) = rw p at h in
            inr (Occurs-evict_expired stamp ttl now k v d h')
        | inr p ↦ let h' : Occurs k v ((j, w) ∷ d) = rw p at h in h'
      ]

  pub Occurs-evict_store :
      (stamp : V → ℕ) (ttl : Option ℕ) (max_records now : ℕ) (k : String) (v : V)
      (d : Dict String V)
      → Occurs k v (evict_store stamp ttl max_records now d)
      → Occurs k v d
  unfolding evict_store
  Occurs-evict_store stamp ttl max_records now k v d h =
      let kept = evict_expired stamp ttl now d in
      Occurs-evict_expired stamp ttl now k v d (Occurs-drop k v (length kept - max_records) kept h)
