-- ===== src/Client/Protection/Balance.antt =====
-- `Acquire` counts a request that it admits, and the release takes it back.
use golang_cms.Prelude.{
  ℕ, ◌+◌, ◌-◌, String, not, ◌&&◌, ◌||◌, ◌=s=◌, leb, lookup, ◌≡◌, refl, ◌∙◌, ap, arith, eq_iff, inl,
  inr, Bool-cases, fun_ext,
}
use golang_cms.Client.Protection.{
  Arithmetic, Protection, Counts, set_count, cleanup_stale, ensure_capacity, refill, save_buckets,
  Answer, refused, admitted, is_there, spend, prune_pairs, acquire, release, pair_of, key_bucket_of,
  pair_bucket_of, key_concurrency, pair_concurrency, key_rate, key_burst, pair_rate, pair_burst,
}

put_back :
    (k : String) (c : Counts)
    → set_count k (set_count k (c k + 1) c k - 1) (set_count k (c k + 1) c) ≡ c
put_back k c = fun_ext λ j. elim (Bool-cases (k =s= j)) [
  | inl same ↦
      let here : c k ≡ c j = ap c ((eq_iff k j).0 same) in ground (arith, same, here, eq_iff k k)
  | inr differ ↦ ground (arith, differ)
]

module _ (f : Arithmetic) where
  -- The counts of running requests are the same.
  pub record SameActive (p q : Protection f) : Type 0 where
    pub keys : q.key_active ≡ p.key_active
    pub pairs : q.pair_active ≡ p.pair_active
    pub clients : q.global ≡ p.global

  -- A refused request is not counted; one that is admitted is counted until its release.
  abbrev pub Balanced : String → String → Protection f → Protection f → Answer f → Type 0
  Balanced key ip p q (refused e t) = SameActive p q
  Balanced key ip p q admitted = SameActive p (release f key ip q)

  same : {p : Protection f} → SameActive p p
  same = record { keys = refl; pairs = refl; clients = refl }

  -- A refused request is not counted, and one that is admitted is counted once for its key and once for
  -- its pair.
  abbrev pub Taken : String → String → Protection f → Protection f → Answer f → Type 0
  Taken key ip p q (refused e t) = SameActive p q
  Taken key ip p q admitted =
      (q.key_active ≡ set_count key (p.key_active key + 1) p.key_active)
      × (q.pair_active
          ≡ set_count (pair_of key ip) (p.pair_active (pair_of key ip) + 1) p.pair_active)
      × (q.global ≡ p.global)

  Taken-from :
      (key ip : String) (p q r : Protection f) (a : Answer f)
      → SameActive p q
      → Taken key ip q r a
      → Taken key ip p r a
  Taken-from key ip p q r (refused e t) s b = record {
    keys = b.keys ∙ s.keys;
    pairs = b.pairs ∙ s.pairs;
    clients = b.clients ∙ s.clients;
  }
  Taken-from key ip p q r admitted s (keys, pairs, clients) = (
    keys ∙ ap (λ (c : Counts). set_count key (c key + 1) c) s.keys,
    pairs ∙ ap (λ (c : Counts). set_count (pair_of key ip) (c (pair_of key ip) + 1) c) s.pairs,
    clients ∙ s.clients,
  )

  Taken-Balanced :
      (key ip : String) (p q : Protection f) (a : Answer f)
      → Taken key ip p q a
      → Balanced key ip p q a
  unfolding release
  Taken-Balanced key ip p q (refused e t) s = s
  Taken-Balanced key ip p q admitted (keys, pairs, clients) = record {
    keys = ap (λ (c : Counts). set_count key (c key - 1) c) keys ∙ put_back key p.key_active;
    pairs =
        ap (λ (c : Counts). set_count (pair_of key ip) (c (pair_of key ip) - 1) c) pairs
        ∙ put_back (pair_of key ip) p.pair_active;
    clients = clients;
  }

  module _ (key ip : String) (now : ℕ) where
    abbrev pair : String
    pair = pair_of key ip

    abbrev key_id : String
    key_id = key_bucket_of key

    abbrev pair_id : String
    pair_id = pair_bucket_of (pair_of key ip)

    spend-Taken :
        (p : Protection f) → Taken key ip p (spend f key ip now p).0 (spend f key ip now p).1
    unfolding spend save_buckets
    spend-Taken p =
        let kb = refill f key_id now key_rate key_burst p in
        let pb = refill f pair_id now pair_rate pair_burst p in
        elim (Bool-cases (f.below_one kb.tokens || f.below_one pb.tokens)) [
          | inl poor ↦ rw poor (record { keys = refl; pairs = refl; clients = refl })
          | inr rich ↦
              elim (Bool-cases (
                leb key_concurrency (p.key_active key)
                || leb pair_concurrency (p.pair_active pair))) [
                  | inl full ↦
                      rw rich (rw full (record { keys = refl; pairs = refl; clients = refl }))
                  | inr free ↦ rw rich (rw free (refl, refl, refl))
                ]
        ]

    prune_pairs-SameActive : (p : Protection f) → SameActive p (prune_pairs f key pair_id now p)
    unfolding prune_pairs cleanup_stale
    prune_pairs-SameActive p = record {
      keys = ground arith;
      pairs = ground arith;
      clients = ground arith;
    }

    ensure_capacity-SameActive :
        (p : Protection f) → SameActive p (ensure_capacity f now key_id pair_id p).0
    unfolding ensure_capacity cleanup_stale
    ensure_capacity-SameActive p = record {
      keys = ground arith;
      pairs = ground arith;
      clients = ground arith;
    }

    pub acquire-Taken :
        (p : Protection f) → Taken key ip p (acquire f key ip now p).0 (acquire f key ip now p).1
    unfolding acquire
    acquire-Taken p =
        let p1 = prune_pairs f key pair_id now p in
        let s1 = prune_pairs-SameActive p in
        let r = ensure_capacity f now key_id pair_id p1 in
        let s2 = ensure_capacity-SameActive p1 in
        elim (Bool-cases
          (not (is_there f (lookup pair_id p.buckets)) && leb 256 (p1.pair_buckets key))) [
            | inl full ↦ rw full s1
            | inr free ↦ elim (Bool-cases r.1) [
              | inl h ↦ rw free (
                  rw h (
                    Taken-from key ip p p1 _ _ s1
                      (Taken-from key ip p1 r.0 _ (spend f key ip now r.0).1 s2 (spend-Taken r.0))))
              | inr h ↦ rw free (
                  rw h (record {
                    keys = s2.keys ∙ s1.keys;
                    pairs = s2.pairs ∙ s1.pairs;
                    clients = s2.clients ∙ s1.clients;
                  }))
            ]
          ]

    -- A request that `Acquire` refuses changes no count of running requests, and for one that it admits
    -- the counts of its key and of its pair are back where they were once it is released.
    pub acquire-Balanced :
        (p : Protection f) → Balanced key ip p (acquire f key ip now p).0 (acquire f key ip now p).1
    acquire-Balanced p =
        Taken-Balanced key ip p (acquire f key ip now p).0 (acquire f key ip now p).1
          (acquire-Taken p)
