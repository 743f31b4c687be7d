-- ===== src/Client/Protection/Bounds.antt =====
-- The protection keeps its limits.
use golang_cms.Prelude.{
  ℕ, ◌+◌, ◌-◌, ◌≤◌, String, Bool, true, false, not, ◌&&◌, ◌||◌, leb, length, lookup, assign, Keyed,
  lookup-assign, assign-Keyed, retain-Keyed, length-assign, length-retain-le, ◌≡◌, refl, arith,
  eq_iff, inl, inr, Bool-cases, subst,
}
use golang_cms.Client.Protection.{
  Arithmetic, RateBucket, Protection, Counts, set_count, enter, leave, is_stale, cleanup_stale,
  fits, ensure_capacity, refill, save_buckets, is_there, spend, prune_pairs, acquire, release,
  pair_of, key_bucket_of, pair_bucket_of, key_concurrency, pair_concurrency, new_protection,
  key_rate, key_burst, pair_rate, pair_burst,
}

module _ (f : Arithmetic) where
  -- One bucket for each name, no more buckets than the maximum, and no more requests at a time than the
  -- limits for all clients, for a key and for a pair.
  pub record IsWithin (p : Protection f) : Type 0 where
    pub keyed : Keyed p.buckets
    pub few : length p.buckets ≤ 8192
    pub all_clients : p.global ≤ 20
    pub each_key : (k : String) → p.key_active k ≤ 8
    pub each_pair : (k : String) → p.pair_active k ≤ 4

  saved-few :
      (p : Protection f) (a b : String) (x y : RateBucket f)
      → fits f p a b ≡ true
      → length (assign b y (assign a x p.buckets)) ≤ 8192
  unfolding fits
  saved-few p a b x y h = ground (
    arith,
    length-assign a x p.buckets,
    length-assign b y (assign a x p.buckets),
    lookup-assign a b x p.buckets,
    eq_iff a b,
  )

  save_buckets-IsWithin :
      (p : Protection f) (a b key : String) (x y : RateBucket f) (exists : Bool)
      → IsWithin p
      → fits f p a b ≡ true
      → IsWithin (save_buckets f a b key x y exists p)
  unfolding save_buckets
  save_buckets-IsWithin p a b key x y exists w h = record {
    keyed = assign-Keyed b _ (assign a x p.buckets) (assign-Keyed a x p.buckets w.keyed);
    few = saved-few p a b x (record y { owner = key }) h;
    all_clients = w.all_clients;
    each_key = w.each_key;
    each_pair = w.each_pair;
  }

  cleanup_stale-IsWithin :
      (p : Protection f) (now : ℕ) → IsWithin p → IsWithin (cleanup_stale f now p)
  unfolding cleanup_stale
  cleanup_stale-IsWithin p now w = record {
    keyed = retain-Keyed (λ b. not (is_stale f now b)) p.buckets w.keyed;
    few = omega (arith, w.few, length-retain-le (λ b. not (is_stale f now b)) p.buckets);
    all_clients = w.all_clients;
    each_key = w.each_key;
    each_pair = w.each_pair;
  }

  ensure_capacity-IsWithin :
      (p : Protection f) (now : ℕ) (a b : String)
      → IsWithin p
      → IsWithin (ensure_capacity f now a b p).0
        × ((ensure_capacity f now a b p).1 ≡ true
            → fits f (ensure_capacity f now a b p).0 a b ≡ true)
  unfolding ensure_capacity
  ensure_capacity-IsWithin p now a b w = elim (Bool-cases (fits f p a b)) [
    | inl h ↦ rw h (w, λ _. h)
    | inr h ↦ rw h (cleanup_stale-IsWithin p now w, λ k. k)
  ]

  counted :
      (k : String) (n limit : ℕ) (c : Counts)
      → n ≤ limit
      → ((j : String) → c j ≤ limit)
      → (j : String) → set_count k n c j ≤ limit
  counted k n limit c h g j = ground (arith, g j)

  module _ (key ip : String) (now : ℕ) where
    abbrev pair : String
    pair = pair_of key ip

    abbrev key_id : String
    key_id = key_bucket_of key

    abbrev pair_id : String
    pair_id = pair_bucket_of (pair_of key ip)

    admit-IsWithin :
        (p q : Protection f)
        → IsWithin q
        → q.key_active ≡ p.key_active
        → q.pair_active ≡ p.pair_active
        → (leb key_concurrency (p.key_active key) || leb pair_concurrency (p.pair_active pair))
          ≡ false
        → IsWithin (record q {
          key_active = set_count key (p.key_active key + 1) p.key_active;
          pair_active = set_count pair (p.pair_active pair + 1) p.pair_active;
        })
    admit-IsWithin p q w same_keys same_pairs free = record {
      keyed = w.keyed;
      few = w.few;
      all_clients = w.all_clients;
      each_key =
          counted key (p.key_active key + 1) 8 p.key_active (ground arith)
            (λ j. subst (λ (c : Counts). c j ≤ 8) same_keys (w.each_key j));
      each_pair =
          counted pair (p.pair_active pair + 1) 4 p.pair_active (ground arith)
            (λ j. subst (λ (c : Counts). c j ≤ 4) same_pairs (w.each_pair j));
    }

    spend-IsWithin :
        (p : Protection f)
        → IsWithin p
        → fits f p key_id pair_id ≡ true
        → IsWithin (spend f key ip now p).0
    unfolding spend
    spend-IsWithin p w h =
        let exists = is_there f (lookup pair_id p.buckets) in
        let kb = refill f key_id now key_rate key_burst p in
        let pb = refill f pair_id now pair_rate pair_burst p in
        elim (Bool-cases (f.below_one kb.tokens || f.below_one pb.tokens)) [
          | inl poor ↦ rw poor (save_buckets-IsWithin p key_id pair_id key kb pb exists w h)
          | inr rich ↦
              elim (Bool-cases (
                leb key_concurrency (p.key_active key)
                || leb pair_concurrency (p.pair_active pair))) [
                  | inl full ↦
                      rw rich
                        (rw full (save_buckets-IsWithin p key_id pair_id key kb pb exists w h))
                  | inr free ↦
                      let x : RateBucket f = record kb { tokens = f.minus_one kb.tokens } in
                      let y : RateBucket f = record pb { tokens = f.minus_one pb.tokens } in
                      rw rich (
                        rw free (
                          admit-IsWithin p (save_buckets f key_id pair_id key x y exists p)
                            (save_buckets-IsWithin p key_id pair_id key x y exists w h)
                            (unfold save_buckets in refl) (unfold save_buckets in refl) free))
                ]
        ]

    prune_pairs-IsWithin :
        (p : Protection f) → IsWithin p → IsWithin (prune_pairs f key pair_id now p)
    unfolding prune_pairs
    prune_pairs-IsWithin p w = elim (Bool-cases (is_there f (lookup pair_id p.buckets))) [
      | inl there ↦ rw there w
      | inr missing ↦ elim (Bool-cases (leb 256 (p.pair_buckets key))) [
        | inl many ↦ rw missing (rw many (cleanup_stale-IsWithin p now w))
        | inr few ↦ rw missing (rw few w)
      ]
    ]

    pub acquire-IsWithin : (p : Protection f) → IsWithin p → IsWithin (acquire f key ip now p).0
    unfolding acquire
    acquire-IsWithin p w =
        let p1 = prune_pairs f key pair_id now p in
        let w1 = prune_pairs-IsWithin p w in
        let r = ensure_capacity f now key_id pair_id p1 in
        let (w2, room) = ensure_capacity-IsWithin p1 now key_id pair_id w1 in
        elim (Bool-cases
          (not (is_there f (lookup pair_id p.buckets)) && leb 256 (p1.pair_buckets key))) [
            | inl full ↦ rw full w1
            | inr free ↦ elim (Bool-cases r.1) [
              | inl h ↦ rw free (rw h (spend-IsWithin r.0 w2 (room h)))
              | inr h ↦ rw free (rw h w2)
            ]
          ]

  pub release-IsWithin :
      (key ip : String) (p : Protection f) → IsWithin p → IsWithin (release f key ip p)
  unfolding release
  release-IsWithin key ip p w = record {
    keyed = w.keyed;
    few = w.few;
    all_clients = w.all_clients;
    each_key =
        counted key (p.key_active key - 1) 8 p.key_active (ground (arith, w.each_key key))
          w.each_key;
    each_pair =
        counted (pair_of key ip) (p.pair_active (pair_of key ip) - 1) 4 p.pair_active
          (ground (arith, w.each_pair (pair_of key ip))) w.each_pair;
  }

  pub clients-IsWithin :
      (p : Protection f) (n : ℕ) → IsWithin p → n ≤ 20 → IsWithin (record p { global = n })
  clients-IsWithin p n w h = record {
    keyed = w.keyed;
    few = w.few;
    all_clients = h;
    each_key = w.each_key;
    each_pair = w.each_pair;
  }

  pub enter-IsWithin : (p : Protection f) → IsWithin p → IsWithin (enter f p).0
  unfolding enter
  enter-IsWithin p w = elim (Bool-cases (leb 20 p.global)) [
    | inl full ↦ rw full w
    | inr free ↦ rw free (clients-IsWithin p (p.global + 1) w (ground arith))
  ]

  pub leave-IsWithin : (p : Protection f) → IsWithin p → IsWithin (leave f p)
  unfolding leave
  leave-IsWithin p w = clients-IsWithin p (p.global - 1) w (omega (arith, w.all_clients))

  pub new_protection-IsWithin : IsWithin (new_protection f)
  unfolding new_protection
  new_protection-IsWithin = record {
    keyed = tt;
    few = omega arith;
    all_clients = omega arith;
    each_key = λ k. omega arith;
    each_pair = λ k. omega arith;
  }
