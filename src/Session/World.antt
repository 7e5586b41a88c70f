-- ===== src/Session/World.antt =====
-- The state of the session core, and the way an operation runs on it: it returns or throws, and
-- what it wrote before a throw stays written.
--
-- `Env` is what lies outside the code: the clock (`Date.now`, by the number of the call), the
-- random short ids of core/id.ts (by the number of the call) and the intent classifier that the
-- manager awaits (`none`: its promise rejects). A listener of the event bus is outside too: an
-- event that is emitted is appended to `events`.
use Prim.Native.String.{◌++◌ as str_append}
use memos_qdrant.Shared.{ℕ, ◌+◌, String, ◌≡◌, refl, Option, none, some, List, [], ◌∷◌, ◌++◌}
use memos_qdrant.Shared.Keyed.{Map}
use memos_qdrant.Session.Types.{
  Error, EpisodeSnapshot, SessionSnapshot, SessionEvent, IntentDecision,
}
use memos_qdrant.Session.Db.{Db}

pub record Env : Type 0 where
  pub now : ℕ → ℕ
  pub short_id : ℕ → String
  pub classify : String → Option IntentDecision

pub record World : Type 0 where
  pub env : Env
  pub now_calls : ℕ
  pub id_calls : ℕ
  pub idle_cutoff_ms : Option ℕ
  pub by_id : Map String EpisodeSnapshot
  pub live : Map String SessionSnapshot
  pub db : Db
  pub events : List SessionEvent

pub data Result {ℓ} (A : Type ℓ) : Type ℓ where
  ok : A → Result A
  err : Error → Result A

abbrev pub Run : Type 0 → Type 0
Run A = World → Result A × World

abbrev pub resume : {A B : Type 0} → Result A → (A → Run B) → Run B
resume (ok a) f w = f a w
resume (err e) f w = (err e, w)

infixl 5 ◌>>=◌ ◌>>◌
abbrev pub ◌>>=◌ : {A B : Type 0} → Run A → (A → Run B) → Run B
◌>>=◌ m f w = let (r, w') = m w in resume r f w'

abbrev pub ◌>>◌ : {A B : Type 0} → Run A → Run B → Run B
m >> n = m >>= λ _. n

abbrev pub pure : {A : Type 0} → A → Run A
pure a w = (ok a, w)

abbrev pub throw : {A : Type 0} → Error → Run A
throw e w = (err e, w)

-- `deps.now()`
abbrev pub now : Run ℕ
now w = (ok (w.env.now w.now_calls), record w { now_calls = w.now_calls + 1 })

-- `ids.episode()` and the like: a prefix before a random short id.
abbrev pub mint : String → Run String
mint prefix w =
    (ok (str_append prefix (w.env.short_id w.id_calls)), record w { id_calls = w.id_calls + 1 })

-- `given ?? ids.…()`
abbrev pub given_or : Option String → Run String → Run String
given_or none m = m
given_or (some id) m = pure id

-- `deps.bus.emit(evt)`
abbrev pub emit : SessionEvent → Run (Unit {0})
emit evt w = (ok tt, record w { events = w.events ++ evt ∷ [] })

abbrev pub modify_db : (Db → Db) → Run (Unit {0})
modify_db f w = (ok tt, record w { db = f w.db })

-- A loop over a list that was computed before the loop began.
abbrev pub for_each : {A : Type 0} → (A → Run (Unit {0})) → List A → Run (Unit {0})
for_each f [] = pure tt
for_each f (x ∷ xs) = f x >> for_each f xs

-- The rule for such a loop whose body returns: `P` speaks of the elements still to come.
module _ {ℓ} {A : Type 0} (f : A → Run (Unit {0})) (P : List A → World → Type ℓ)
    (body : (x : A) (xs : List A) (w : World)
      → P (x ∷ xs) w
      → ((f x w).0 ≡ ok tt) × P xs (f x w).1) where
  pub for_each_rule :
      (xs : List A) (w : World) → P xs w → ((for_each f xs w).0 ≡ ok tt) × P [] (for_each f xs w).1
  for_each_rule [] w h = (refl, h)
  for_each_rule (x ∷ xs) w h =
      let (returns, kept) = body x xs w h in rw returns (for_each_rule xs (f x w).1 kept)
