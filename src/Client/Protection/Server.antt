-- ===== src/Client/Protection/Server.antt =====
-- internal/client/protection.go: the requests that run under the protection, as the handlers of `Global`
-- and of `Acquire` start and end them.
use golang_cms.Prelude.{
  ℕ, ◌+◌, ◌-◌, String, Bool, false, ◌&&◌, ◌||◌, List, [], ◌∷◌, ◌=s=◌, ◌==◌, if◌then◌else◌,
}
use golang_cms.Client.Protection.{
  Arithmetic, Protection, Answer, refused, admitted, enter, leave, acquire, release, new_protection,
}

-- A request behind `Acquire`: its key and its address.
abbrev pub Request : Type 0
Request = String × String

abbrev pub same_request : Request → Request → Bool
same_request (k, i) (key, ip) = k =s= key && i =s= ip

unfoldable pub is_running : Request → List Request → Bool
is_running r [] = false
is_running r (q ∷ qs) = same_request q r || is_running r qs

unfoldable pub end_request : Request → List Request → List Request
end_request r [] = []
end_request r (q ∷ qs) = if same_request q r then qs else q ∷ end_request r qs

module _ (f : Arithmetic) where
  -- The protection, how many requests are inside `Global`, and those that `Acquire` has admitted and that
  -- are not released.
  pub record Server : Type 0 where
    pub protection : Protection f
    pub entered : ℕ
    pub running : List Request

  pub data Step : Type 0 where
    enters leaves : Step
    acquires : String → String → ℕ → Step
    releases : String → String → Step

  abbrev pub with_answer : Request → Answer f → List Request → List Request
  with_answer r admitted running = r ∷ running
  with_answer r (refused e t) running = running

  -- A step of a request. The deferred function of `Global` runs once for a request that has entered, and
  -- `sync.Once` lets the release run once for a request that was admitted.
  unfoldable pub advance : Step → Server → Server
  advance enters s =
      let (p, may) = enter f s.protection in
      if may
      then record s { protection = p; entered = s.entered + 1 }
      else record s { protection = p }
  advance leaves s =
      if s.entered == 0
      then s
      else record s { protection = leave f s.protection; entered = s.entered - 1 }
  advance (acquires key ip now) s =
      let (p, answer) = acquire f key ip now s.protection in
      record s { protection = p; running = with_answer (key, ip) answer s.running }
  advance (releases key ip) s =
      if is_running (key, ip) s.running
      then record s {
        protection = release f key ip s.protection;
        running = end_request (key, ip) s.running;
      }
      else s

  unfoldable pub advance_all : List Step → Server → Server
  advance_all [] s = s
  advance_all (x ∷ xs) s = advance_all xs (advance x s)

  -- Behind `NewProtection`.
  unfoldable pub new_server : Server
  new_server = record { protection = new_protection f; entered = 0; running = [] }
