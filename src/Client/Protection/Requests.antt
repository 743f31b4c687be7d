-- ===== src/Client/Protection/Requests.antt =====
-- How many requests run at a time.
use golang_cms.Prelude.{
  ℕ, ◌+◌, ◌-◌, ◌≤◌, String, Bool, true, List, [], ◌∷◌, ◌=s=◌, ◌==◌, leb, length, Keyed, ◌≡◌, refl,
  ◌∙◌, ap, arith, eq_iff, inl, inr, Bool-cases, if◌then◌else◌,
}
use golang_cms.Client.Protection.{
  Arithmetic, Protection, Counts, set_count, Answer, refused, admitted, enter, leave, acquire,
  release, pair_of, new_protection,
}
use golang_cms.Client.Protection.Bounds.{
  IsWithin, enter-IsWithin, leave-IsWithin, acquire-IsWithin, release-IsWithin,
  new_protection-IsWithin,
}
use golang_cms.Client.Protection.Balance.{Taken, acquire-Taken}
use golang_cms.Client.Protection.Server.{
  Request, same_request, is_running, end_request, Server, Step, enters, leaves, acquires, releases,
  with_answer, advance, advance_all, new_server,
}

abbrev one_if : Bool → ℕ
one_if b = if b then 1 else 0

-- How many of the requests have the name.
unfoldable pub count_of : (Request → String) → String → List Request → ℕ
count_of name k [] = 0
count_of name k (r ∷ rs) = one_if (name r =s= k) + count_of name k rs

abbrev pub key_of : Request → String
key_of (key, ip) = key

abbrev pub pair_name : Request → String
pair_name (key, ip) = pair_of key ip

same_request_eq : (q r : Request) → same_request q r ≡ true → q ≡ r
same_request_eq (k, i) (key, ip) h =
    let p : k ≡ key = ground (arith, eq_iff k key) in
    let q : i ≡ ip = ground (arith, eq_iff i ip) in cc

count_of-end_request :
    (name : Request → String) (k : String) (r : Request) (rs : List Request)
    → is_running r rs ≡ true
    → count_of name k rs ≡ one_if (name r =s= k) + count_of name k (end_request r rs)
unfolding count_of is_running end_request
count_of-end_request name k r [] h = absurd (cc)
count_of-end_request name k r (q ∷ qs) h = elim (Bool-cases (same_request q r)) [
  | inl same ↦
      rw same (ap (λ x. one_if (name x =s= k) + count_of name k qs) (same_request_eq q r same))
  | inr differ ↦
      let rest = count_of-end_request name k r qs (rw differ at h) in
      rw differ (omega (arith, rest))
]

module _ (f : Arithmetic) where
  -- The counts are those of the running requests, and within the limits.
  pub record IsServed (s : Server f) : Type 0 where
    pub within : IsWithin f s.protection
    pub clients : s.protection.global ≡ s.entered
    pub keys : (k : String) → s.protection.key_active k ≡ count_of key_of k s.running
    pub pairs : (q : String) → s.protection.pair_active q ≡ count_of pair_name q s.running

  -- The limits on what runs: requests at all, of a key, and of a pair of a key and an address, and the
  -- buckets, each under its own name.
  pub record KeepsLimits (s : Server f) : Type 0 where
    pub all_clients : s.entered ≤ 20
    pub each_key : (k : String) → count_of key_of k s.running ≤ 8
    pub each_pair : (key ip : String) → count_of pair_name (pair_of key ip) s.running ≤ 4
    pub few : length s.protection.buckets ≤ 8192
    pub keyed : Keyed s.protection.buckets

  entered-IsServed : (s : Server f) → IsServed s → IsServed (advance f enters s)
  unfolding advance enter
  entered-IsServed s v = elim (Bool-cases (leb 20 s.protection.global)) [
    | inl full ↦ rw full v
    | inr free ↦ rw free (record {
      within = unfold enter in rw free at (enter-IsWithin f s.protection v.within);
      clients = omega (arith, v.clients);
      keys = v.keys;
      pairs = v.pairs;
    })
  ]

  left-IsServed : (s : Server f) → IsServed s → IsServed (advance f leaves s)
  unfolding advance leave
  left-IsServed s v = elim (Bool-cases (s.entered == 0)) [
    | inl idle ↦ rw idle v
    | inr busy ↦ rw busy (record {
      within = unfold leave in leave-IsWithin f s.protection v.within;
      clients = omega (arith, v.clients);
      keys = v.keys;
      pairs = v.pairs;
    })
  ]

  counted :
      (name : Request → String) (r : Request) (c c' : Counts) (rs : List Request)
      → c' ≡ set_count (name r) (c (name r) + 1) c
      → ((k : String) → c k ≡ count_of name k rs)
      → (k : String) → c' k ≡ count_of name k (r ∷ rs)
  unfolding count_of
  counted name r c c' rs same v k =
      ap (λ (x : Counts). x k) same ∙ ground (arith, eq_iff (name r) k, v k, v (name r))

  taken :
      (key ip : String) (s : Server f) (p : Protection f) (a : Answer f)
      → IsServed s
      → IsWithin f p
      → Taken f key ip s.protection p a
      → IsServed (record s { protection = p; running = with_answer f (key, ip) a s.running })
  taken key ip s p (refused e t) v w same = record {
    within = w;
    clients = same.clients ∙ v.clients;
    keys = λ k. ap (λ (c : Counts). c k) same.keys ∙ v.keys k;
    pairs = λ k. ap (λ (c : Counts). c k) same.pairs ∙ v.pairs k;
  }
  taken key ip s p admitted v w (keys, pairs, clients) = record {
    within = w;
    clients = clients ∙ v.clients;
    keys = counted key_of (key, ip) s.protection.key_active p.key_active s.running keys v.keys;
    pairs =
        counted pair_name (key, ip) s.protection.pair_active p.pair_active s.running pairs v.pairs;
  }

  discounted :
      (name : Request → String) (r : Request) (c : Counts) (rs : List Request)
      → is_running r rs ≡ true
      → ((k : String) → c k ≡ count_of name k rs)
      → (k : String) → set_count (name r) (c (name r) - 1) c k ≡ count_of name k (end_request r rs)
  discounted name r c rs h v k =
      ground (arith, eq_iff (name r) k, v k, v (name r), count_of-end_request name k r rs h)

  released-IsServed :
      (key ip : String) (s : Server f) → IsServed s → IsServed (advance f (releases key ip) s)
  unfolding advance release
  released-IsServed key ip s v = elim (Bool-cases (is_running (key, ip) s.running)) [
    | inr idle ↦ rw idle v
    | inl runs ↦ rw runs (record {
      within = unfold release in release-IsWithin f key ip s.protection v.within;
      clients = v.clients;
      keys = discounted key_of (key, ip) s.protection.key_active s.running runs v.keys;
      pairs = discounted pair_name (key, ip) s.protection.pair_active s.running runs v.pairs;
    })
  ]

  advance-IsServed : (x : Step f) (s : Server f) → IsServed s → IsServed (advance f x s)
  unfolding advance
  advance-IsServed enters s v = entered-IsServed s v
  advance-IsServed leaves s v = left-IsServed s v
  advance-IsServed (acquires key ip now) s v =
      taken key ip s (acquire f key ip now s.protection).0 (acquire f key ip now s.protection).1 v
        (acquire-IsWithin f key ip now s.protection v.within)
        (acquire-Taken f key ip now s.protection)
  advance-IsServed (releases key ip) s v = released-IsServed key ip s v

  pub advance_all-IsServed :
      (steps : List (Step f)) (s : Server f) → IsServed s → IsServed (advance_all f steps s)
  unfolding advance_all
  advance_all-IsServed [] s v = v
  advance_all-IsServed (x ∷ xs) s v =
      advance_all-IsServed xs (advance f x s) (advance-IsServed x s v)

  new_server-IsServed : IsServed (new_server f)
  unfolding new_server new_protection count_of
  new_server-IsServed = record {
    within = unfold new_protection in new_protection-IsWithin f;
    clients = refl;
    keys = λ k. refl;
    pairs = λ q. refl;
  }

  -- From a new protection on, whatever requests enter, leave, acquire and release, in any order and at any
  -- time, at most 20 requests are inside at a time, at most 8 of a key and 4 of a pair of a key and an
  -- address run, and at most 8192 buckets are kept, each under its own name.
  pub advance_all-KeepsLimits :
      (steps : List (Step f)) → KeepsLimits (advance_all f steps (new_server f))
  advance_all-KeepsLimits steps =
      let v = advance_all-IsServed steps (new_server f) new_server-IsServed in
      record {
        all_clients = omega (arith, v.clients, v.within.all_clients);
        each_key = λ k. omega (arith, v.keys k, v.within.each_key k);
        each_pair =
            λ key ip. omega (arith, v.pairs (pair_of key ip), v.within.each_pair (pair_of key ip));
        few = v.within.few;
        keyed = v.within.keyed;
      }
