-- ===== src/Sessions/Race.antt =====
-- Validations of one session that overlap. `validate_session_orchestrated` reads the session in one
-- statement and acts on what it read in later ones, and nothing holds the row in between: requests
-- that are served at once may all read before any of them acts.
use captchapi.Prelude.{
  ℕ, suc, ◌+◌, ℤ, ◌<ℤ◌, ◌≤ℤ◌, String, ◌≡◌, refl, Bool, true, false, Option, some, List, [], ◌∷◌,
  map, arith, length, All,
}
use captchapi.Error.{Result, ok, session_not_found}
use captchapi.Models.{Session}
use captchapi.Crypto.{verify_solution}
use captchapi.World.{World, Exec, lift, ok_or, ◌>>=◌}
use captchapi.Storage.Sessions.{get_active_session, row_of}
use captchapi.Sessions.{Services, ValidationOutcome, judge, validate_session_orchestrated}
use captchapi.Sessions.Attempts.{is_wrong, is_correct}
use captchapi.Sessions.Validate.{row_in}
use captchapi.Sessions.Create.{session_from_row-row_of}

-- The first half of `validate_session_orchestrated`, for each of some requests for one session.
pub read_each : String → List String → World → List (Result (Option Session)) × World
read_each id [] w = ([], w)
read_each id (guess ∷ rest) w =
    let (r, w') = get_active_session id w in
    let (later, w'') = read_each id rest w' in (r ∷ later, w'')

module _ (s : Services) (max : ℤ) (id : String) where
  -- The second half of one request, from what it read.
  pub act : Result (Option Session) → String → Exec ValidationOutcome
  act r guess = do
    found ← lift r
    session ← ok_or found session_not_found
    judge s id guess max session

  -- A request is its first half and then its second.
  validate-act :
      (guess : String) (w : World)
      → validate_session_orchestrated s id guess max w
        ≡ (let (r, w') = get_active_session id w in act r guess w')
  unfolding validate_session_orchestrated act
  validate-act guess w = ground arith

  pub act_each :
      List (Result (Option Session)) → List String → World → List (Result ValidationOutcome)
  act_each (r ∷ rs) (guess ∷ rest) w =
      let (outcome, w') = act r guess w in outcome ∷ act_each rs rest w'
  act_each _ _ w = []

  -- Requests with these guesses that all read before any of them acts, and then act in turn.
  pub overlapping : List String → World → List (Result ValidationOutcome)
  overlapping guesses w = let (rs, w') = read_each id guesses w in act_each rs guesses w'

pub total : (Result ValidationOutcome → ℕ) → List (Result ValidationOutcome) → ℕ
total f [] = 0
total f (r ∷ rs) = f r + total f rs

-- The database refuses nothing, and the session is stored and expires after every clock reading.
pub record IsOpen (x : Session) (w : World) : Type 0 where
  pub up : (n : ℕ) → w.outside.fails n ≡ false
  pub live : (n : ℕ) → w.outside.now n ≤ℤ x.expires_at
  pub stored : row_in w x.id ≡ some (row_of x)

module _ (x : Session) where
  read_open :
      (w : World)
      → IsOpen x w
      → get_active_session x.id w ≡ (ok (some x), record w { step = suc (suc w.step) })
  unfolding get_active_session
  read_open w o =
      ground (arith, session_from_row-row_of x, o.up w.step, o.live (suc w.step), o.stored)

  read_each_open :
      (guesses : List String) (w : World)
      → IsOpen x w
      → ((read_each x.id guesses w).0 ≡ map (λ _. ok (some x)) guesses)
        × ((read_each x.id guesses w).1.outside ≡ w.outside)
  unfolding read_each
  read_each_open [] w o = (refl, refl)
  read_each_open (guess ∷ rest) w o =
      let w' : World = record w { step = suc (suc w.step) } in
      let (p, q) =
        read_each_open rest w' (record { up = o.up; live = o.live; stored = o.stored }) in
      rw (read_open w o) (cc, q)

module _ (s : Services) (max : ℤ) (x : Session) (left : x.attempt_count <ℤ max) where
  abbrev pub matches : String → Bool
  matches guess = verify_solution s.primitives s.solution_key x.id guess x.solution_hash

  abbrev IsUp : World → Type 0
  IsUp w = (n : ℕ) → w.outside.fails n ≡ false

  judge-outside : (guess : String) (w : World) → (judge s x.id guess max x w).1.outside ≡ w.outside
  unfolding judge
  judge-outside guess w = ground arith

  IsUp-after : (guess : String) (w : World) → IsUp w → IsUp (judge s x.id guess max x w).1
  IsUp-after guess w up n = rw (judge-outside guess w) (up n)

  judge_wrong :
      (guess : String) (w : World)
      → w.outside.fails w.step ≡ false
      → matches guess ≡ false
      → is_wrong (judge s x.id guess max x w).0 ≡ 1
  unfolding judge
  judge_wrong guess w up other = ground arith

  judge_correct :
      (guess : String) (w : World)
      → w.outside.fails w.step ≡ false
      → matches guess ≡ true
      → is_correct (judge s x.id guess max x w).0 ≡ 1
  unfolding judge
  judge_correct guess w up same = ground arith

  act_each_wrong :
      (w : World) (guesses : List String)
      → IsUp w
      → All (λ g. matches g ≡ false) guesses
      → total is_wrong (act_each s max x.id (map (λ _. ok (some x)) guesses) guesses w)
        ≡ length guesses
  unfolding act_each act total
  act_each_wrong w [] up h = refl
  act_each_wrong w (guess ∷ rest) up h = omega (
    arith,
    judge_wrong guess w (up w.step) h.0,
    act_each_wrong (judge s x.id guess max x w).1 rest (IsUp-after guess w up) h.1,
  )

  act_each_correct :
      (w : World) (guesses : List String)
      → IsUp w
      → All (λ g. matches g ≡ true) guesses
      → total is_correct (act_each s max x.id (map (λ _. ok (some x)) guesses) guesses w)
        ≡ length guesses
  unfolding act_each act total
  act_each_correct w [] up h = refl
  act_each_correct w (guess ∷ rest) up h = omega (
    arith,
    judge_correct guess w (up w.step) h.0,
    act_each_correct (judge s x.id guess max x w).1 rest (IsUp-after guess w up) h.1,
  )

  -- However many requests with wrong guesses overlap, each of them is told that its guess is wrong
  -- if at least one attempt was left when they read the session: the maximum does not bound them. The
  -- session is stored and does not expire meanwhile, and the database refuses nothing.
  pub overlapping_wrongs :
      (w : World) (guesses : List String)
      → IsOpen x w
      → All (λ g. matches g ≡ false) guesses
      → total is_wrong (overlapping s max x.id guesses w) ≡ length guesses
  unfolding overlapping
  overlapping_wrongs w guesses o h =
      let (p, q) = read_each_open x guesses w o in
      rw p (act_each_wrong (read_each x.id guesses w).1 guesses (λ n. rw q (o.up n)) h)

  -- Every one of the overlapping requests that has the solution is told that it is correct: one
  -- session is redeemed as often as requests overlap. The session is stored, has an attempt left and
  -- does not expire meanwhile, and the database refuses nothing.
  pub overlapping_corrects :
      (w : World) (guesses : List String)
      → IsOpen x w
      → All (λ g. matches g ≡ true) guesses
      → total is_correct (overlapping s max x.id guesses w) ≡ length guesses
  unfolding overlapping
  overlapping_corrects w guesses o h =
      let (p, q) = read_each_open x guesses w o in
      rw p (act_each_correct (read_each x.id guesses w).1 guesses (λ n. rw q (o.up n)) h)
