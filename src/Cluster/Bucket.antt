-- ===== src/Cluster/Bucket.antt =====
-- The token buckets of durallm/storage/cluster.py bound the rate of what is granted.
use mathlib.Core.Path.{subst}
use durallm.Common.{
  refl, ℕ, ◌+◌, ◌-◌, ◌*◌, ◌≤◌, ◌≡◌, sym, inl, inr, Bool, ◌&&◌, Option, none, some, String, List, [],
  ◌∷◌, ◌==◌, string_eq, eq_iff, arith, Bool-cases, if◌then◌else◌,
}
use durallm.Common.Dict
use durallm.Cluster.Store.{ClusterStore, TokenBucket, consume, consume_tokens, store_bucket}

pub record TokenRequest : Type 0 where
  pub key : String
  pub tokens : ℕ
  pub time : ℕ

-- The requests come in order of time, between two times.
abbrev pub AreOrdered : ℕ → ℕ → List TokenRequest → Type 0
AreOrdered start until [] = start ≤ until
AreOrdered start until (c ∷ cs) = (start ≤ c.time) × AreOrdered c.time until cs

span : (a b c r : ℕ) → a ≤ b → b ≤ c → (b - a) * r + (c - b) * r ≡ (c - a) * r
span a b c r h k = grind arith

until_le : (start until : ℕ) (cs : List TokenRequest) → AreOrdered start until cs → start ≤ until
until_le start until [] h = h
until_le start until (c ∷ cs) h = omega (arith, until_le c.time until cs h.1)

abbrev pub IsPast : Option TokenBucket → ℕ → Type 0
IsPast none start = Unit
IsPast (some bucket) start = bucket.last_refill ≤ start

module _ (capacity rate : ℕ) where
  -- What a bucket is worth at a time, before it is cut to the capacity
  abbrev worth : Option TokenBucket → ℕ → ℕ
  worth none start = capacity
  worth (some bucket) start = bucket.tokens + (start - bucket.last_refill) * rate

  abbrev Falls : ℕ → Option TokenBucket → Option TokenBucket → ℕ → ℕ → Type 0
  Falls paid o o' start t = (paid + worth o' t ≤ worth o start + (t - start) * rate) × IsPast o' t

  denied-Falls :
      (o : Option TokenBucket) (start t : ℕ) → start ≤ t → IsPast o start → Falls 0 o o start t
  denied-Falls none start t h past = (omega arith, tt)
  denied-Falls (some bucket) start t h past =
      let e = span bucket.last_refill start t rate past h in (omega (arith, e), omega (arith, past))

  granted-Falls :
      (o : Option TokenBucket) (n start t : ℕ) (bucket' : TokenBucket)
      → start ≤ t
      → IsPast o start
      → consume n capacity rate t o ≡ some bucket'
      → Falls n o (some bucket') start t
  unfolding consume
  granted-Falls none n start t bucket' h past e = ground (arith)
  granted-Falls (some bucket) n start t bucket' h past e =
      let e' = span bucket.last_refill start t rate past h in ground (arith, e')

module _ {Payload : Type 0} (capacity rate : ℕ) (key : String) where
  -- The tokens that the requests for the key are granted.
  unfoldable pub granted : List TokenRequest → ClusterStore Payload → ℕ
  granted [] s = 0
  granted (c ∷ cs) s =
      let (ok, s') : Bool × ClusterStore Payload =
        consume_tokens c.key c.tokens capacity rate c.time s in
      (if ok && c.key == key then c.tokens else 0) + granted cs s'

  stored-Falls :
      (c : TokenRequest) (s : ClusterStore Payload) (start : ℕ) (o' : Option TokenBucket)
      → start ≤ c.time
      → IsPast (Dict.lookup key s.token_buckets) start
      → consume c.tokens capacity rate c.time (Dict.lookup c.key s.token_buckets) ≡ o'
      → let (ok, s') : Bool × ClusterStore Payload = store_bucket c.key s o' in
        Falls capacity rate
          (if ok && c.key == key then c.tokens else 0)
          (Dict.lookup key s.token_buckets)
          (Dict.lookup key s'.token_buckets)
          start
          c.time
  stored-Falls c s start none h past e =
      denied-Falls capacity rate (Dict.lookup key s.token_buckets) start c.time h past
  stored-Falls c s start (some bucket) h past e = elim (Bool-cases (c.key == key)) [
    | inl same ↦
        let k : c.key ≡ key = (eq_iff c.key key).0 same in
        rw same (
          rw Dict.lookup-insert (
            rw same (
              granted-Falls capacity rate (Dict.lookup key s.token_buckets) c.tokens start c.time
                bucket h past
                (subst
                  (λ (x : String).
                    consume c.tokens capacity rate c.time (Dict.lookup x s.token_buckets)
                    ≡ some bucket)
                  k e))))
    | inr other ↦ rw other (
        rw Dict.lookup-insert (
          rw other
            (denied-Falls capacity rate (Dict.lookup key s.token_buckets) start c.time h past)))
  ]

  granted-le :
      (cs : List TokenRequest) (s : ClusterStore Payload) (start until : ℕ)
      → AreOrdered start until cs
      → IsPast (Dict.lookup key s.token_buckets) start
      → granted cs s
        ≤ worth capacity rate (Dict.lookup key s.token_buckets) start + (until - start) * rate
  unfolding granted consume_tokens
  granted-le [] s start until ordered past = omega arith
  granted-le (c ∷ cs) s start until ordered past =
      let o' = consume c.tokens capacity rate c.time (Dict.lookup c.key s.token_buckets) in
      let (falls, past') = stored-Falls c s start o' ordered.0 past refl in
      let rest = granted-le cs (store_bucket c.key s o').1 c.time until ordered.1 past' in
      let e = span start c.time until rate ordered.0 (until_le c.time until cs ordered.1) in
      omega (arith, falls, rest, e)

  -- However many requests come for a key that has no bucket yet, and for other keys between them, the
  -- tokens that are granted for the key never exceed the capacity and what the rate refills in the
  -- time that passes, if all requests name this capacity and rate and their times do not go back.
  pub granted-le-refill :
      (cs : List TokenRequest) (s : ClusterStore Payload) (start until : ℕ)
      → AreOrdered start until cs
      → Dict.lookup key s.token_buckets ≡ none
      → granted cs s ≤ capacity + (until - start) * rate
  granted-le-refill cs s start until ordered fresh =
      subst (λ o. granted cs s ≤ worth capacity rate o start + (until - start) * rate) fresh
        (granted-le cs s start until ordered (subst (λ o. IsPast o start) (sym fresh) tt))
